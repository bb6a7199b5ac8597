-- ===== src/Commands/Acks.antt =====
-- Who may answer a command of src/deliveries/commands/drone-command.service.ts, and the one open
-- command of a delivery.
use drovery_backend.Base.{
  ℕ, ◌<◌, Bool, true, false, some, ◌≡◌, ◌&&◌, ◌==◌, leb, arith, Bool-cases, inl, inr,
}
use drovery_backend.Base.Table.{find, at, count, count-at, IsKeyed, find-key}
use drovery_backend.Store.{Db, AppError, DroneCommand, command_key, delivery_key, Result, ok, err}
use drovery_backend.Wallet.Frame.{refund_for_delivery-frame, refund_charge_to_wallet-frame}
use drovery_backend.Promo.Frame.{release_for_delivery-frame}
use drovery_backend.Dispatch.{release}
use drovery_backend.Deliveries.{update_delivery}
use drovery_backend.Deliveries.Stable.{IsStable}
use drovery_backend.Dispatch.Effects.{dispatch-Keeps}
use drovery_backend.Commands.Driven.{IsDriven}
use drovery_backend.Commands.Open.{OneOpen}
use drovery_backend.Commands.Defs.{
  ack, flies, is_fetched, AckResult, claim_ack, expire, update_command,
}

-- The aircraft of the command, which flies its delivery live, before the command expires, and after
-- it was fetched.
abbrev pub MayAck : ℕ → DroneCommand → Db → Type 0
MayAck drone c db =
    (c.drone_id ≡ drone)
    × (flies drone (find delivery_key c.delivery_id db.deliveries) ≡ true)
    × (db.now < c.expires_at)
    × (is_fetched c ≡ true)

fetched_of_won :
    (id : ℕ) (c : DroneCommand) (db : Db)
    → IsKeyed command_key db.commands
    → find command_key id db.commands ≡ some c
    → is_fetched c ≡ false
    → count (at command_key id is_fetched) db.commands ≡ 0
fetched_of_won id c db k f h = ground (arith, count-at command_key id is_fetched db.commands k)

-- An answer is taken only from the aircraft that flies the command's delivery, in time, and after
-- it fetched the command.
pub ack-MayAck :
    (id drone : ℕ) (accepted : Bool) (c : DroneCommand) (out : AckResult) (db : Db)
    → IsKeyed command_key db.commands
    → find command_key id db.commands ≡ some c
    → (ack id drone accepted db).0 ≡ ok out
    → MayAck drone c db
unfolding ack expire claim_ack update_command
ack-MayAck id drone accepted c out db k f h =
    let same = find-key command_key id db.commands f in
    elim (Bool-cases
      (c.drone_id == drone && flies drone (find delivery_key c.delivery_id db.deliveries))) [
        | inr d ↦ absurd (clash (rw (f, d) at h))
        | inl d ↦ elim (Bool-cases (leb c.expires_at db.now)) [
          | inl e ↦ absurd (clash (rw (f, d, e) at h))
          | inr e ↦ elim (Bool-cases (is_fetched c)) [
            | inl g ↦ (ground arith, ground arith, ground arith, g)
            | inr g ↦ absurd (clash (rw (f, d, e, same, fetched_of_won id c db k f g) at h))
          ]
        ]
      ]
  where
    clash : {x : AppError} → ◌≡◌ {A = Result AckResult} (err x) (ok out) → ⊥
    clash e = cc

-- A delivery has one open command at most.
abbrev pub HasOneOpen : Db → Type 0
HasOneOpen db = OneOpen db.commands

pub HasOneOpen-IsStable : IsStable HasOneOpen
unfolding update_delivery release
HasOneOpen-IsStable = record {
  settling = record {
    emits = λ e db h. h;
    releases = λ id o db h. h;
    promos = release_for_delivery-frame (λ r. OneOpen r.commands);
    spends = refund_for_delivery-frame (λ r. OneOpen r.commands);
    charges = refund_charge_to_wallet-frame (λ r. OneOpen r.commands);
  };
  updates = λ id guard change t db h. h;
}

pub HasOneOpen-IsDriven : IsDriven HasOneOpen
HasOneOpen-IsDriven = record {
  stable = HasOneOpen-IsStable;
  observes = λ db ts rs h. h;
  orders = λ db cs keep h. keep h;
  reads = λ id change r db h. h;
  dispatches = dispatch-Keeps HasOneOpen (λ db ds h. h);
}
