-- ===== src/Watcher/Checklist.antt =====
-- `_wrap_body_with_approval_checklist` and `_build_issue_payload` of watcher.py.
use fresh_stackable_data_pla.Prelude.{◌++◌, Text}
use fresh_stackable_data_pla.Text.{txt, rstrip}

-- `_APPROVAL_CHECKLIST`, up to the fingerprint and after it.
unfoldable pub checklist_start : Text
checklist_start =
    txt "\n"
    ++ (txt "---\n"
        ++ (txt "\n"
            ++ (txt "## Approval checklist (read before adding the `approved` label)\n"
                ++ (txt "\n"
                    ++ (txt "This task was filed automatically by `platform-watcher@uwv`. The\n"
                        ++ (txt "**Suggested fix** above is a proposal, not a prescription.\n"
                            ++ (txt "\n"
                                ++ (txt
                                      "Before adding the `approved` label and assigning the task to a coding\n"
                                    ++ (txt "agent, confirm:\n"
                                        ++ (txt "\n"
                                            ++ (txt
                                                  "- [ ] **Signal is real.** Open the linked runbook (if any) or check\n"
                                                ++ (txt
                                                      "      Grafana/Alertmanager — is the symptom still present, or has it\n"
                                                    ++ (txt
                                                          "      cleared since this task was filed?\n"
                                                        ++ (txt
                                                            "- [ ] **Scope is right.** Does the Suggested fix actually address the\n"
                                                            ++ (txt
                                                            "      hypothesis? Or does it paper over a deeper issue?\n"
                                                            ++ (txt
                                                            "- [ ] **Blast radius is acceptable.** Will the fix touch shared\n"
                                                            ++ (txt
                                                            "      infrastructure (Trino coordinator, Hive metastore, Kafka brokers,\n"
                                                            ++ (txt
                                                            "      OPA policy)? If yes, line up a maintenance window first.\n"
                                                            ++ (txt
                                                            "- [ ] **No active incident.** Don't approve mid-incident — let the\n"
                                                            ++ (txt
                                                            "      oncall stabilise first, then revisit.\n"
                                                            ++ (txt "\n"
                                                            ++ (txt
                                                            "When all four are checked, add the `approved` label and assign the task\n"
                                                            ++ (txt
                                                            "to the coding-agent user. Multica's daemon will then claim it on a\n"
                                                            ++ (txt
                                                            "developer laptop and the existing PR / CI / review flow applies.\n"
                                                            ++ (txt "\n"
                                                            ++ (txt
                                                            "> Dedup fingerprint: `"))))))))))))))))))))))))))

unfoldable pub checklist_end : Text
checklist_end = txt "` — use this if you need to find\n" ++ (txt "> related tasks in Multica.\n")

unfoldable pub wrap_body_with_approval_checklist : Text → Text → Text
unfolding checklist_start checklist_end
wrap_body_with_approval_checklist body fingerprint =
    rstrip body ++ (checklist_start ++ (fingerprint ++ checklist_end))

-- The body of `POST /api/issues`.
pub record Payload : Type 0 where
  pub title : Text
  pub description : Text

-- The comments at the end of a description.
unfoldable pub fingerprint_comment : Text → Text
fingerprint_comment fingerprint =
    txt "\n\n<!-- watcher-fingerprint: " ++ (fingerprint ++ txt " -->\n")

unfoldable pub build_issue_payload : Text → Text → Text → Text → Text → Payload
unfolding wrap_body_with_approval_checklist fingerprint_comment
build_issue_payload title body severity area fingerprint = record {
  title = title;
  description =
      wrap_body_with_approval_checklist body fingerprint
      ++ (fingerprint_comment fingerprint
          ++ (txt "<!-- watcher-version: slice-6 -->\n"
              ++ (txt "<!-- watcher-severity: "
                  ++ (severity ++ (txt " -->\n<!-- watcher-area: " ++ (area ++ txt " -->\n"))))));
}
