-- ===== src/Workers/Startup/Order.antt =====
-- The order of what the processes start, and of what their schedules do in a day.
use quant_execution.Base.{
  ℕ, ◌+◌, ◌*◌, ◌≤◌, ◌≡◌, refl, ap, ap₂, ◌∙◌, ◌≢◌, ◌↔◌, Bool, true, false, not, ◌&&◌, ◌||◌, suc,
  if◌then◌else◌, Option, none, some, List, [], ◌∷◌, arith,
}
use quant_execution.Base.Int.{ℤ, pos}
use quant_execution.Domain.Clock.{ClockTime, Moment, has_reached}
use quant_execution.Domain.Enums.{ExecutionMode, paper, live}
use quant_execution.Services.CloseTime.{
  CloseTime, at, disabled, configuration_error, parse_close_time, shift_earlier, at_minute,
  shift_earlier_lem, parse_close_time-IsTime,
}
use quant_execution.Workers.Startup.{
  Settings, settings_of, Action, trigger, open_trigger, close_trigger, armed, opened_at, main,
  reporting, both_modes, scheduled, report_main, wait_for_table, rehydrate, start_reconciler,
  create_cash_client,
}

shift_earlier-at_minute :
    (t : ClockTime) (lead : ℤ)
    → shift_earlier (some t) lead ≡ shift_earlier (some (at_minute t.hour t.minute)) lead
unfolding shift_earlier
shift_earlier-at_minute t lead = refl

due_earlier :
    (close : ClockTime) (now : Moment) (lead h m : ℕ)
    → h * 60 + m + lead ≡ close.hour * 60 + close.minute
    → has_reached now close ≡ true
    → has_reached now (at_minute h m) ≡ true
due_earlier close now lead h m sum due = ground arith

-- When the report of a mode is due, its executor's liquidation is due, provided that the lead is
-- not negative and at most the minutes from midnight to the close time.
pub liquidation_before_report :
    (mode : ExecutionMode) (s : Settings) (close : ClockTime) (lead : ℕ) (now : Moment)
    → parse_close_time (settings_of mode s).market_close ≡ at close
    → (settings_of mode s).market_close_lead_minutes ≡ pos lead
    → lead ≤ close.hour * 60 + close.minute
    → has_reached now close ≡ true
    → (t : ClockTime) × (close_trigger mode s ≡ some (some t)) × (has_reached now t ≡ true)
unfolding close_trigger trigger
liquidation_before_report mode s close lead now parses leads fits due =
    let valid = parse_close_time-IsTime (settings_of mode s).market_close close parses in
    let (h, m, e, is_time, sum) =
      shift_earlier_lem close.hour close.minute lead valid.0.0 valid.0.1 fits in
    (
      at_minute h m,
      ap₂ trigger parses leads ∙ ap some (shift_earlier-at_minute close (pos lead) ∙ e),
      due_earlier close now lead h m sum due,
    )

-- Whether an action starts a thread or consumes.
abbrev runs : Action → Bool
runs create_cash_client = false
runs (wait_for_table name) = false
runs (rehydrate mode) = false
runs _ = true

abbrev is_rehydrate : Action → Bool
is_rehydrate (rehydrate mode) = true
is_rehydrate _ = false

abbrev is_live_only : Action → Bool
is_live_only create_cash_client = true
is_live_only (start_reconciler seconds) = true
is_live_only _ = false

-- No action runs before the positions are rebuilt.
abbrev pub rebuilt_first : List Action → Bool
rebuilt_first [] = true
rebuilt_first (a ∷ rest) = is_rehydrate a || (not (runs a) && rebuilt_first rest)

abbrev pub live_only : List Action → ℕ
live_only [] = 0
live_only (a ∷ rest) = if is_live_only a then suc (live_only rest) else live_only rest

rebuilt_of :
    (mode : ExecutionMode) (s : Settings) (opens closes : Option (Option ClockTime))
    → rebuilt_first (opened_at mode s opens (armed mode s closes)).0 ≡ true
rebuilt_of mode s none closes = refl
rebuilt_of paper s (some o) closes = refl
rebuilt_of live s (some o) closes = refl

live_only_of :
    (s : Settings) (opens closes : Option (Option ClockTime))
    → live_only (opened_at paper s opens (armed paper s closes)).0 ≡ 0
live_only_of s none closes = refl
live_only_of s (some o) none = refl
live_only_of s (some o) (some c) = refl

-- Whatever the settings are, a process starts no thread and consumes nothing before it has rebuilt
-- its positions, and a paper process has no cash client and no reconciler.
pub main_order :
    (s : Settings)
    → ((mode : ExecutionMode) → rebuilt_first (main mode s).0 ≡ true)
      × (live_only (main paper s).0 ≡ 0)
unfolding main
main_order s = (
  λ mode. rebuilt_of mode s (open_trigger mode s) (close_trigger mode s),
  live_only_of s (open_trigger paper s) (close_trigger paper s),
)

trigger-none : (c : CloseTime) (lead : ℤ) → (trigger c lead ≡ none) ↔ (c ≡ configuration_error)
unfolding trigger
trigger-none configuration_error lead = ((λ e. refl), λ e. refl)
trigger-none (at t) lead = ((λ e. cc e), λ e. cc e)
trigger-none _ lead = ((λ e. cc e), λ e. cc e)

consumes_of :
    (mode : ExecutionMode) (s : Settings) (opens closes : Option (Option ClockTime))
    → ((opened_at mode s opens (armed mode s closes)).1 ≡ true) ↔ ((opens ≢ none) × (closes ≢ none))
consumes_of mode s none closes = ((λ e. cc e), λ h. absurd (h.0 refl))
consumes_of mode s (some o) none = ((λ e. cc e), λ h. absurd (h.1 refl))
consumes_of mode s (some o) (some c) = ((λ e. ((λ f. cc f), λ f. cc f)), λ h. refl)

-- A process comes to consume ticks exactly when both of its times can be read.
pub main_consumes_iff :
    (mode : ExecutionMode) (s : Settings)
    → ((main mode s).1 ≡ true) ↔ (
        (parse_close_time (settings_of mode s).market_open ≢ configuration_error)
        × (parse_close_time (settings_of mode s).market_close ≢ configuration_error))
unfolding main open_trigger close_trigger
main_consumes_iff mode s =
    let m = settings_of mode s in
    let opens = trigger-none (parse_close_time m.market_open) m.market_open_lead_minutes in
    let closes = trigger-none (parse_close_time m.market_close) m.market_close_lead_minutes in
    let both = consumes_of mode s (open_trigger mode s) (close_trigger mode s) in
    (
      (λ e. ((λ f. (both.0 e).0 (opens.1 f)), λ f. (both.0 e).1 (closes.1 f))),
      λ h. both.1 ((λ f. h.0 (opens.0 f)), λ f. h.1 (closes.0 f)),
    )

reports_of :
    (p l : CloseTime)
    → ((reporting (both_modes (scheduled p) (scheduled l))).1 ≡ true)
      ↔ ((p ≢ configuration_error) × (l ≢ configuration_error))
reports_of configuration_error l = ((λ e. cc e), λ h. absurd (h.0 refl))
reports_of disabled configuration_error = ((λ e. cc e), λ h. absurd (h.1 refl))
reports_of (at t) configuration_error = ((λ e. cc e), λ h. absurd (h.1 refl))
reports_of disabled disabled = ((λ e. ((λ f. cc f), λ f. cc f)), λ h. refl)
reports_of disabled (at u) = ((λ e. ((λ f. cc f), λ f. cc f)), λ h. refl)
reports_of (at t) disabled = ((λ e. ((λ f. cc f), λ f. cc f)), λ h. refl)
reports_of (at t) (at u) = ((λ e. ((λ f. cc f), λ f. cc f)), λ h. refl)

-- The reporter comes to report exactly when the close times of both modes can be read.
pub report_main_iff :
    (s : Settings)
    → ((report_main s).1 ≡ true) ↔ (
        (parse_close_time s.paper_settings.market_close ≢ configuration_error)
        × (parse_close_time s.live_settings.market_close ≢ configuration_error))
unfolding report_main
report_main_iff s =
    reports_of (parse_close_time s.paper_settings.market_close)
      (parse_close_time s.live_settings.market_close)
