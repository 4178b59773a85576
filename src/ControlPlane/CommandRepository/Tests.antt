-- ===== src/ControlPlane/CommandRepository/Tests.antt =====
-- An update of a command in a table that has room for one row, and the theorems at that update.
use zensor_server.Prelude.{
  ◌+◌, ◌≡◌, ◌≢◌, ℤ, pos, negsuc, refl, String, Option, none, some, string_eq, ok,
}
use zensor_server.Infra.Orm.{Orm, OrmLaws}
use zensor_server.Infra.Orm.OneRow as OneRow
use zensor_server.SharedKernel.Command.{Command, new_command, queued}
use zensor_server.ControlPlane.CommandRepository.{Row, to_domain, from_command, merged, update}
use zensor_server.ControlPlane.CommandRepository.Updates.{
  row_key, IsNearest, IsLatest, from_command-to_domain, update_keeps_history,
}

abbrev Table : Type 0
Table = Option Row

abbrev rows : String → Table → Option Row
rows = OneRow.rows row_key

abbrev one_row : Orm Row Table
one_row = OneRow.one_row row_key

abbrev one_row_laws : OrmLaws row_key one_row
one_row_laws = OneRow.one_row_laws row_key

abbrev open_valve : Command
open_valve = record (new_command "c1" 4) {
  payload = record { index = 2; value = 255 };
  status = queued;
  queued_at = some 6;
}

-- A row whose payload no command has written.
abbrev foreign_row : Row
foreign_row = record (from_command open_valve) { payload_index = negsuc 4; payload_value = pos 300 }

from_command-to_domain_example :
    (index : ℤ) × (value : ℤ) × (from_command (to_domain foreign_row)
      ≡ record foreign_row { payload_index = index; payload_value = value })
    × IsNearest (negsuc 4) index
    × IsNearest (pos 300) value
from_command-to_domain_example = from_command-to_domain foreign_row

-- A copy that knows nothing of the queueing.
abbrev acknowledged : Command
acknowledged = record (new_command "c1" 9) { acked_at = some 9 }

update_runs : (update one_row acknowledged (some (from_command open_valve))).0 ≡ ok tt
unfolding update from_command merged
update_runs = refl

row_stored : rows "c1" (some (from_command open_valve)) ≡ some (from_command open_valve)
unfolding from_command
row_stored = refl

update_keeps_history_example :
    (row : Row) × (rows "c1" (update one_row acknowledged (some (from_command open_valve))).1
      ≡ some row)
    × (row.created_at ≡ (from_command open_valve).created_at)
    × (row.version ≡ (from_command open_valve).version + 1)
    × IsLatest one_row one_row_laws none (from_command open_valve).queued_at row.queued_at
    × IsLatest one_row one_row_laws (some 9) (from_command open_valve).acked_at row.acked_at
    × IsLatest one_row one_row_laws none (from_command open_valve).failed_at row.failed_at
    × ((id : String)
        → "c1" ≢ id
        → rows id (update one_row acknowledged (some (from_command open_valve))).1
          ≡ rows id (some (from_command open_valve)))
update_keeps_history_example =
    update_keeps_history one_row one_row_laws acknowledged (some (from_command open_valve))
      row_stored update_runs
