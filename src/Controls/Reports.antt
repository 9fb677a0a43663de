-- ===== src/Controls/Reports.antt =====
-- The queue of reports (`queue_report` of native/src/controls.rs).
use retrodeck.Prelude.{
  ℕ, ◌+◌, ◌≤◌, ◌≡◌, refl, sym, subst, Bool, true, false, not, ◌&&◌, List, [], ◌∷◌, ◌++◌, Option,
  none, some, ltb, ◌==◌, if◌then◌else◌, if_true, if_false, length, length-append, arith, Bool-cases,
  inl, inr,
}
use retrodeck.Input.{ControlReport, gamepad_report}
use retrodeck.Controls.{queue_report, push_report, merge_report, merged_or_pushed, has_report}

abbrev pub one_if : Bool → ℕ
one_if b = if b then 1 else 0

-- How many reports of the controllers there are.
abbrev pub gamepads : List ControlReport → ℕ
gamepads [] = 0
gamepads (r ∷ reports) = one_if (r.kind == gamepad_report) + gamepads reports

-- At most 64 reports, and at most one of the controllers.
pub record Bounded (reports : List ControlReport) : Type 0 where
  pub short : length reports ≤ 64
  pub single : gamepads reports ≤ 1

gamepads-append :
    (rs : List ControlReport) (r : ControlReport)
    → gamepads (rs ++ (r ∷ [])) ≡ gamepads rs + one_if (r.kind == gamepad_report)
gamepads-append [] r = omega arith
gamepads-append (q ∷ rs) r = omega (arith, gamepads-append rs r)

push_report-Bounded :
    (rs : List ControlReport) (r : ControlReport)
    → gamepads rs + one_if (r.kind == gamepad_report) ≤ 1
    → Bounded rs
    → Bounded (push_report rs r)
unfolding push_report
push_report-Bounded rs r few h = elim (Bool-cases (ltb (length rs) 64 && not (has_report rs r))) [
  | inl fits ↦ rw fits (record {
    short =
        (let a = length-append rs (r ∷ []) in
          let room = both (ltb (length rs) 64) _ fits in ground arith);
    single = (let a = gamepads-append rs r in omega arith);
  })
  | inr full ↦ rw full h
]
  where
    both : (a b : Bool) → (a && b) ≡ true → a ≡ true
    both true b h = refl
    both false b h = absurd (cc h)

-- What `merge_report` finds: a report that it keeps in place, or no report of a controller.
Merged : List ControlReport → Option (List ControlReport) → Type 0
Merged rs none = gamepads rs ≡ 0
Merged rs (some merged) = (length merged ≡ length rs) × (gamepads merged ≡ gamepads rs)

found_later :
    (q : ControlReport) (rs : List ControlReport) (o : Option (List ControlReport))
    → (q.kind == gamepad_report) ≡ false
    → Merged rs o
    → Merged (q ∷ rs) (elim o [ none ↦ none | some merged ↦ some (q ∷ merged) ])
unfolding Merged
found_later q rs none h m = rw h (omega arith)
found_later q rs (some merged) h (a, b) = (omega arith, omega arith)

merge_report-Merged : (rs : List ControlReport) (r : ControlReport) → Merged rs (merge_report rs r)
unfolding merge_report Merged
merge_report-Merged [] r = refl
merge_report-Merged (q ∷ rs) r = elim (Bool-cases (q.kind == gamepad_report)) [
  | inl pad ↦
      subst (Merged (q ∷ rs)) (sym (if_true (q.kind == gamepad_report) _ _ pad)) (refl, refl)
  | inr keys ↦
      subst (Merged (q ∷ rs)) (sym (if_false (q.kind == gamepad_report) _ _ keys))
        (found_later q rs (merge_report rs r) keys (merge_report-Merged rs r))
]

merged_or_pushed-Bounded :
    (o : Option (List ControlReport)) (rs : List ControlReport) (r : ControlReport)
    → Merged rs o
    → Bounded rs
    → Bounded (merged_or_pushed o rs r)
unfolding merged_or_pushed Merged
merged_or_pushed-Bounded none rs r m h = push_report-Bounded rs r (ground arith) h
merged_or_pushed-Bounded (some merged) rs r (a, b) h = record {
  short = (let c = h.short in omega arith);
  single = (let c = h.single in omega arith);
}

queue_report-Bounded :
    (rs : List ControlReport) (r : ControlReport) → Bounded rs → Bounded (queue_report rs r)
unfolding queue_report
queue_report-Bounded rs r h = elim (Bool-cases (r.kind == gamepad_report)) [
  | inl pad ↦
      subst Bounded (sym (if_true (r.kind == gamepad_report) _ _ pad))
        (merged_or_pushed-Bounded (merge_report rs r) rs r (merge_report-Merged rs r) h)
  | inr keys ↦
      subst Bounded (sym (if_false (r.kind == gamepad_report) _ _ keys))
        (push_report-Bounded rs r (let c = h.single in rw keys (omega arith)) h)
]

pub queue_all : List ControlReport → List ControlReport → List ControlReport
queue_all queue [] = queue
queue_all queue (r ∷ reports) = queue_all (queue_report queue r) reports

-- Whatever reports the devices bring, the queue holds at most 64, and at most one of the controllers.
pub queue_all-Bounded :
    (queue reports : List ControlReport) → Bounded queue → Bounded (queue_all queue reports)
unfolding queue_all
queue_all-Bounded queue [] h = h
queue_all-Bounded queue (r ∷ reports) h =
    queue_all-Bounded (queue_report queue r) reports (queue_report-Bounded queue r h)
