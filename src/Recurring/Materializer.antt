-- ===== src/Recurring/Materializer.antt =====
-- src/recurring-deliveries/recurring.materializer.ts, with the limits of recurring.constants.ts. What
-- `create` is asked for an occurrence, the answers of the geocoder and of Stripe included, is a
-- parameter, as is the time zone.
use drovery_backend.Base.{
  ℕ, zero, suc, ◌+◌, Bool, true, false, Option, none, some, List, [], ◌∷◌, ◌&&◌, ◌==◌, leb, ltb,
  filter, take, if◌then◌else◌,
}
use drovery_backend.Base.Table.{at, count, update_many}
use drovery_backend.Store.{
  Delivery, RecurringDelivery, Action, ⊤, ok, pure, gets, best_effort, ◌>>=◌, ◌>>◌,
}
use drovery_backend.Dispatch.{Distance, sort_by}
use drovery_backend.Booking.{Flags, CreateRequest, create}
use drovery_backend.Recurring.Rule.{Zone, RecurrenceRule, compute_next_occurrence}

abbrev pub lookahead : ℕ
lookahead = 21600000

abbrev pub missed_grace : ℕ
missed_grace = 120000

abbrev pub scan_batch : ℕ
scan_batch = 200

abbrev pub max_cursor_advances : ℕ
max_cursor_advances = 400

abbrev pub schedule_key : RecurringDelivery → ℕ
schedule_key s = s.id

-- `toRule`
abbrev pub to_rule : RecurringDelivery → RecurrenceRule
to_rule s = record {
  freq = s.freq;
  days_of_week = s.days_of_week;
  time_of_day = s.time_of_day;
  start_date = s.start_date;
  end_date = s.end_date;
}

abbrev pub is_instant : Option ℕ → ℕ → Bool
is_instant none t = false
is_instant (some a) t = a == t

abbrev pub is_at_cursor : ℕ → RecurringDelivery → Bool
is_at_cursor cursor s = s.active && is_instant s.next_run_at cursor

-- The atomic claim of an occurrence: the number of rows whose cursor was still there.
unfoldable pub claim_cursor : ℕ → ℕ → Option ℕ → Action ℕ
claim_cursor id cursor advance_to db = (
  ok (count (at schedule_key id (is_at_cursor cursor)) db.recurring_deliveries),
  record db {
    recurring_deliveries =
        update_many (at schedule_key id (is_at_cursor cursor))
          (λ s. record s { next_run_at = advance_to }) db.recurring_deliveries;
  },
)

unfoldable pub note_instance : ℕ → ℕ → Delivery → Action ⊤
note_instance id now d db = (
  ok tt,
  record db {
    recurring_deliveries =
        update_many (at schedule_key id (λ s. true))
          (λ s. record s { last_materialized_at = some now; last_delivery_id = some d.id })
          db.recurring_deliveries;
  },
)

-- A row whose cursor has come within reach.
abbrev pub is_due : ℕ → RecurringDelivery → Bool
is_due horizon s = s.active && elim s.next_run_at [ none ↦ false | some t ↦ leb t horizon ]

abbrev pub cursor_order : RecurringDelivery → RecurringDelivery → Bool
cursor_order a b = elim a.next_run_at [
  | none ↦ false
  | some s ↦ elim b.next_run_at [ none ↦ true | some t ↦ leb s t ]
]

-- `cursor < now - grace`
abbrev pub is_missed : ℕ → ℕ → Bool
is_missed now cursor = ltb (cursor + missed_grace) now

module _ (distance : Distance) (flags : Flags) (z : Zone)
    (order : RecurringDelivery → ℕ → CreateRequest) where
  -- A failure of the booking is logged: the cursor has moved on.
  unfoldable pub create_instance : RecurringDelivery → ℕ → ℕ → Action ⊤
  unfolding create note_instance
  create_instance s occurrence now =
      best_effort
        (create distance flags s.user_id (order s occurrence) >>= λ d. note_instance s.id now d)

  -- After the claim: stop where it is lost, skip what was missed, and book.
  abbrev pub settle_claim : RecurringDelivery → ℕ → ℕ → ℕ → Action ⊤ → Action ⊤
  settle_claim s now cursor won rest =
      if won == 0
      then pure tt
      else if is_missed now cursor
      then rest
      else create_instance s cursor now >> rest

  abbrev pub next_cursor : RecurringDelivery → ℕ → ℕ → Option ℕ
  next_cursor s now cursor =
      compute_next_occurrence z (to_rule s) (if is_missed now cursor then now else cursor)

  -- The loop over the cursor, with the rounds that are left.
  unfoldable pub advance : RecurringDelivery → ℕ → ℕ → ℕ → Option ℕ → Action ⊤
  unfolding claim_cursor create_instance compute_next_occurrence
  advance s now horizon zero cursor = pure tt
  advance s now horizon (suc n) none = pure tt
  advance s now horizon (suc n) (some cursor) =
      let rest = advance s now horizon n (next_cursor s now cursor) in
      if ltb horizon cursor
      then pure tt
      else claim_cursor s.id cursor (next_cursor s now cursor) >>= λ won.
          settle_claim s now cursor won rest

  unfoldable pub materialize_schedule : RecurringDelivery → ℕ → ℕ → Action ⊤
  unfolding advance
  materialize_schedule s now horizon = advance s now horizon max_cursor_advances s.next_run_at

  -- One schedule that fails does not stop the scan.
  unfoldable pub materialize_all : ℕ → ℕ → List RecurringDelivery → Action ⊤
  unfolding materialize_schedule
  materialize_all now horizon [] = pure tt
  materialize_all now horizon (s ∷ rest) =
      best_effort (materialize_schedule s now horizon) >> materialize_all now horizon rest

  unfoldable pub scan_and_materialize : Action ⊤
  unfolding materialize_all
  scan_and_materialize = do
    now ← gets (λ db. db.now)
    due ← gets (λ db.
        take scan_batch
          (sort_by cursor_order (filter (is_due (now + lookahead)) db.recurring_deliveries)))
    materialize_all now (now + lookahead) due
