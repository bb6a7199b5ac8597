-- ===== src/Examples/Orders.antt =====
-- The commands: the theorems at a command that an aircraft has fetched.
use drovery_backend.Base.{false, none, some, [], ◌∷◌, refl, arith}
use drovery_backend.Store.{Db, DroneCommand, CommandStatus, return_to_base, weather_abort}
use drovery_backend.Commands.{ack}
use drovery_backend.Commands.Acks.{MayAck, ack-MayAck}
use drovery_backend.Examples.Data.{sample}

abbrev turn_back : DroneCommand
turn_back = record {
  id = 1;
  delivery_id = 1;
  drone_id = 7;
  type = return_to_base;
  reason = weather_abort;
  status = CommandStatus.fetched;
  issued_by_user_id = none;
  applied_transition = false;
  expires_at = 200000;
  fetched_at = some 99000;
  acked_at = none;
  created_at = 98000;
}

abbrev commanded : Db
commanded = record sample { commands = turn_back ∷ [] }

ack-MayAck_example : MayAck 7 turn_back commanded
unfolding ack
ack-MayAck_example =
    ack-MayAck 1 7 false turn_back
      (record { id = 1; status = CommandStatus.rejected; applied_transition = false }) commanded
      (ground arith) refl refl
