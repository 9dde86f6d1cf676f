-- ===== src/Lib.antt =====
-- The services and scripts of the data platform that decide who may see what: a model of their
-- Python code, with the theorems that make them correct.
--
-- The program's parts and how they interact. OpenMetadata holds the catalog. A user asks for access
-- to a table through the access bridge, which creates a task there for the table's owners; when the
-- task is closed, OpenMetadata calls the bridge back with a signed event, and the bridge assigns a
-- role in Keycloak. Two scripts carry data between the services: one writes the purposes that
-- OpenMetadata's tags name into the data of the OPA policy, the other makes Keycloak's users known
-- to OpenMetadata. A third brings what dbt's models say of themselves into OpenMetadata: tags, owners,
-- domains, data products. The platform watcher reads signals for a language model and files tasks in
-- Multica, which a human must approve; the observatory's other tools read Trino and
-- OpenMetadata. The portal keeps what each user opened and starred, and searches the other
-- services; it shows the failures of DAGs as events and the reports of Power BI. Its Airflow bridge
-- triggers the conversion of what a user uploaded, and its learn backend keeps
-- the progress of a user in Keycloak. The source registry
-- is read by every DAG of Airflow. The data generator makes the citizen numbers of the persons
-- that fill the platform with synthetic data.
--
-- The files:
--   Prelude      lists over the native numbers, Python's `in`, `==` and dicts
--   Text         the operations of `str` that the code uses, on code points (ASCII for case)
--   Json         JSON values with `dict.get`, truthiness and the errors of another type
--   Effect       exceptions as values (Raises), a state that keeps what was written before one;
--                what a call keeps of the state (Keeps, Takes, Zoom) and gives of its value (Gives)
--   Http         answers of other services, and the log of requests as the only state
--   Bridge       platform/18-om-access-bridge/app/app.py: Signature for `_verify_signature` and
--                `_decode_received_signature`, Grant for `_parse_grant` and `_ENTITY_REF_RE`, World
--                for `_processed_events`, the caches and the requests, Keycloak and OpenMetadata for
--                the two clients, Endpoints for `create_access_request`, `webhook_om` and
--                `replay_task`
--   Enrich       platform/13-openmetadata-config/enrich_from_dbt_meta.py: Tags for the tags and the
--                tier, Columns and Extension for the columns and custom properties, Refs for the
--                requests and the caches of references, Writes and Patch for
--                `build_table_patch_ops` and `main`
--   Sync         platform/13-openmetadata-config/om_to_opa_sync.py (Policy, its requests in
--                Policy/Run) and keycloak_user_sync.py (Users)
--   Watcher      platform/19-nanitics-observatory/app/watcher.py: Checklist for the text of a task,
--                Tools for the tools that read, Labels for `file_multica_task` and its labels
--   Observer     platform/19-nanitics-observatory/app/platform_tools.py: `query_trino`, and Catalog and
--                Requests for the tools on OpenMetadata
--   Portal       portal/scripts/portal-backend.py: Store for `_email_from_request` and the recents
--                and favourites, Search for the sources, the cache and `search`, Events for the
--                poller and the queues of the clients, Reports and Embed for Power BI
--   Sources      platform/11-airflow/include/sources_loader.py: the records and lookups, and Coerce
--                for `_coerce` and `load_all_sources`
--   Upload       portal/scripts/airflow-bridge.py: Names for the patterns and the folder of a user,
--                Trigger for `trigger_convert`
--   Academy      portal/scripts/learn-backend.py: the filter of a progress, and Store for Keycloak
--   Persona      data-generation/generators/persona.py, lines 19 to 70
-- The modules below a component hold its theorems, and its module Tests runs them on concrete input.
--
-- What stands for code that is not in the repository. The other services are one function of the
-- requests so far and the request, to an answer or to none, so that they may answer anything, at any
-- time; a theorem that needs more of them says so in a hypothesis. HMAC, base64, UTF-8 and the
-- parsing and printing of JSON are parameters. Each request is one step, and the state is threaded
-- through in the order of the code. Where the code waits for a lock, what others write meanwhile is
-- an argument; the events of the portal are a step relation between polls and clients; else two
-- requests that a server handles at once are not modelled.
--
-- Loops are recursion on the list or number they run over. The two loops over pages have no bound
-- in the code: they run on fuel, and theorems show how much of it is enough for a service with so
-- many pages. Running out is an error of its own, which no other part of the code raises.
--
-- Numbers are natural numbers; a negative one has its own constructor in JSON. Texts are code points;
-- lower case, white space and digits are their ASCII part. An error keeps its status and the fixed
-- part of its detail. Logging, timeouts, headers and the connection of a client are left out, as is
-- the rest of the repository: the DAGs and Spark jobs, which call Airflow and Spark throughout, the
-- observatory's agents, the scripts that run by hand, the generators of documents and reports, SQL,
-- policies, charts and infrastructure.
pub mod Prelude
pub mod Text
pub mod Json
pub mod Effect
pub mod Http
pub mod Sources
pub mod Sync
pub mod Academy
pub mod Bridge
pub mod Observer
pub mod Persona
pub mod Watcher
pub mod Portal
pub mod Upload
pub mod Enrich
