-- ===== src/Observer/Tests.antt =====
-- A query for the observatory, and the theorem there.
use fresh_stackable_data_pla.Prelude.{◌≡◌, ◌⊎◌, true, some, Option, List, [], Text}
use fresh_stackable_data_pla.Text.{txt}
use fresh_stackable_data_pla.Observer.{Table, query_trino}
use fresh_stackable_data_pla.Observer.ReadOnly.{Executed, IsTable, query_trino-Executed}

abbrev empty_table : List Text → Text → Option Table
empty_table executed sql = some (record { columns = []; rows = [] })

query_trino-Executed_example :
    (((query_trino true empty_table 200 (txt "SELECT 1;") []).1 ≡ [])
      × (IsTable (query_trino true empty_table 200 (txt "SELECT 1;") []).0 → ⊥))
    ⊎ Executed empty_table 200
        (txt "SELECT 1;")
        []
        (query_trino true empty_table 200 (txt "SELECT 1;") []).1
        (query_trino true empty_table 200 (txt "SELECT 1;") []).0
query_trino-Executed_example = query_trino-Executed true empty_table 200 (txt "SELECT 1;") []
