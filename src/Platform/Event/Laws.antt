-- ===== src/Platform/Event/Laws.antt =====
-- What a wait on an event tells its caller.
use embedded_provisioning_sd.Prelude.{
  ℕ, ◌+◌, ◌≡◌, ◌≢◌, ◌⊎◌, Bool, true, false, some, List, [], ◌∷◌, arith, if◌then◌else◌,
}
use embedded_provisioning_sd.Platform.Event.{
  SyncEvent, Section, sets, waits, run_section, run_sections, Wake, wait_set, wait,
}

-- `set` is among what the other threads do in some round.
abbrev pub has_set : List Section → Bool
has_set [] = false
has_set (sets ∷ ss) = true
has_set (waits ∷ ss) = has_set ss

abbrev pub any_set : List Wake → Bool
any_set [] = false
any_set (w ∷ ws) = if has_set w.others then true else any_set ws

run_sections_clear :
    (ss : List Section) (e : SyncEvent)
    → e.event_status ≡ false
    → has_set ss ≡ false
    → (run_sections e ss).event_status ≡ false
unfolding run_sections
run_sections_clear [] e h n = h
run_sections_clear (sets ∷ ss) e h n = cc
run_sections_clear (waits ∷ ss) e h n = simp h (run_sections_clear ss e h n)

wait_set_clear :
    (block : ℕ) (ws : List Wake) (e : SyncEvent)
    → e.event_status ≡ false
    → any_set ws ≡ false
    → ((wait_set block e ws).ret ≢ some 0)
unfolding wait_set
wait_set_clear block [] e h n = ground arith
wait_set_clear block (w ∷ ws) e h n =
    ground
      (arith, run_sections_clear w.others e h, wait_set_clear block ws (run_sections e w.others))

-- A wait that returns true was on an event that had been set: already at the call, or by another
-- thread in a round of the wait.
pub wait-true_needs_set :
    (e : SyncEvent) (block : ℕ) (ws : List Wake)
    → (wait e block ws).0 ≡ some true
    → (e.event_status ≡ true) ⊎ (any_set ws ≡ true)
unfolding wait
wait-true_needs_set e block ws h = ground (arith, wait_set_clear block ws e)

-- A wait on a set event returns true at once and clears it; one that returns true leaves the event
-- clear, so each true answer uses up a set.
pub wait_consumes :
    (e : SyncEvent) (block : ℕ) (ws : List Wake)
    → (e.event_status ≡ true → wait e block ws ≡ (some true, record { event_status = false }))
      × ((wait e block ws).0 ≡ some true → (wait e block ws).1.event_status ≡ false)
unfolding wait wait_set
wait_consumes e block [] = (λ h. ground arith, λ h. ground arith)
wait_consumes e block (w ∷ ws) = (λ h. ground arith, λ h. ground arith)

-- How many waits of a history get through, and how many sets it has.
abbrev pub count_wins : SyncEvent → List Section → ℕ
count_wins e [] = 0
count_wins e (sets ∷ ss) = count_wins (run_section e sets) ss
count_wins e (waits ∷ ss) = (if e.event_status then 1 else 0) + count_wins (run_section e waits) ss

abbrev pub count_sets : List Section → ℕ
count_sets [] = 0
count_sets (sets ∷ ss) = 1 + count_sets ss
count_sets (waits ∷ ss) = count_sets ss

abbrev pub pending : SyncEvent → ℕ
pending e = if e.event_status then 1 else 0
