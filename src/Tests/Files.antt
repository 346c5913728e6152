-- ===== src/Tests/Files.antt =====
-- The quota and the removal of a file at concrete inputs.
use kb_backend.Prelude.{
  ◌↔◌, ◌+◌, ℕ, ◌≡◌, true, false, some, none, List, [], ◌∷◌, if◌then◌else◌, lookup, arith,
}
use kb_backend.Es.{Store, fake_es}
use kb_backend.Relay.Effects.{effects}
use kb_backend.Relay.Drain.{pending_events}
use kb_backend.Db.{UsageRow, World}
use kb_backend.Quota.{Totals, get_usage, check_quota}
use kb_backend.Quota.Limits.{month_docs, month_bytes, Within, check_quota-Within}
use kb_backend.FileStore.{purge_file}
use kb_backend.FileStore.Erased.{has_document, mentions, purge_file_erases}
use kb_backend.Tests.Outbox.{update_rows, update_rows-AllKnown}
use kb_backend.Tests.Purge.{world, env, file}

abbrev limits : Totals
limits = record { docs = 3; bytes = 1000 }

abbrev usage : List UsageRow
usage =
    record { tenant_id = 2; period = 4; doc_count = 9; bytes = 9000 }
    ∷ record { tenant_id = 1; period = 4; doc_count = 2; bytes = 400 }
    ∷ []

check_quota-Within_example :
    ((check_quota limits (get_usage 4 0 (file ∷ []) usage 1) 600).0 ≡ true) ↔ (
      Within 3 (month_docs 4 0 1 (file ∷ []) usage + 1)
      × Within 1000 (month_bytes 4 0 1 (file ∷ []) usage + 600))
check_quota-Within_example = check_quota-Within limits 1 4 0 600 (file ∷ []) usage (omega arith)

-- the tables with events of file 7 still to publish
abbrev busy : World ℕ (Store ℕ)
busy = record world { pg = record world.pg { outbox = update_rows } }

purge_file_erases_example :
    let (w', done) = purge_file env fake_es 4 1 7 busy in
    if done
    then (mentions w'.pg 7 ≡ false)
      × (lookup 2 w'.es ≡ (
          if has_document busy.pg 7 2
          then none
          else effects (pending_events (some 7) busy.pg.outbox) 2 (lookup 2 busy.es)))
    else (w' ≡ busy)
purge_file_erases_example = purge_file_erases 4 1 7 env busy 2 update_rows-AllKnown
