-- ===== src/Journal/Api.antt =====
-- web/src/features/journal/api.ts. The demo entries of mock.ts, which nothing changes, are the state
-- that the call finds in memory.
use ahmed_sila.Base.{Bool, List, map, if◌then◌else◌}
use ahmed_sila.Text.{txt}
use ahmed_sila.Text.Decimal.{show}
use ahmed_sila.Http.{Network, ok}
use ahmed_sila.Http.Payloads.{journal}
use ahmed_sila.Http.Calls.{getting, On, remote, local}
use ahmed_sila.Journal.Types.{GlobalJournalEntry}
use ahmed_sila.Journal.Wire.{JournalEntryWire}

abbrev pub from_wire : JournalEntryWire → GlobalJournalEntry
from_wire e = record {
  id = show e.id;
  occurred_at = e.occurred_at;
  actor = e.actor;
  kind = e.kind;
  text = e.text;
  client_id = e.client_id;
  client_name = e.client_name;
}

unfoldable pub fetch_journal :
    (n : Network) → Bool → On n (List GlobalJournalEntry) (List GlobalJournalEntry)
fetch_journal n use_mock =
    if use_mock
    then local n (List GlobalJournalEntry) (λ es. (ok es, es))
    else remote n (List GlobalJournalEntry) journal (txt "/journal?limit=200") getting
        (map from_wire)
