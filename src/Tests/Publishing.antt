-- ===== src/Tests/Publishing.antt =====
-- Two publishers whose events reach the log in the other order than their numbers.
use h2ai_control_plane.Prelude.{ℕ, ◌≡◌, refl, [], ◌∷◌, arith}
use h2ai_control_plane.Task.Event.{proposal, merge_resolved}
use h2ai_control_plane.State.InMemory.{InMemoryStateBackend, CapturedEvent, new}
use h2ai_control_plane.State.InMemory.Publishing.{
  Publishers, Steps, none_yet, then_step, number, push, numbered_by, pushed, given, seqs,
  Steps-given,
}

abbrev fresh_backend : InMemoryStateBackend ℕ ℕ
unfolding new
fresh_backend = new ℕ ℕ

abbrev first_event : CapturedEvent
first_event = record { subject = "a"; event = proposal; seq = 1 }

abbrev second_event : CapturedEvent
second_event = record { subject = "b"; event = merge_resolved; seq = 2 }

abbrev overtaken : Publishers ℕ ℕ
overtaken = record {
  backend = pushed (pushed (numbered_by (numbered_by fresh_backend)) second_event) first_event;
  in_flight = [];
}

log_out_of_order : seqs overtaken.backend.events ≡ 2 ∷ 1 ∷ []
unfolding new
log_out_of_order = refl

interleaving : Steps (record { backend = new ℕ ℕ; in_flight = [] }) 4 overtaken
unfolding new
interleaving =
    then_step
      (then_step
        (then_step (then_step none_yet (number fresh_backend [] "a" proposal))
          (number (numbered_by fresh_backend) (first_event ∷ []) "b" merge_resolved))
        (push (numbered_by (numbered_by fresh_backend)) (first_event ∷ []) [] second_event))
      (push (pushed (numbered_by (numbered_by fresh_backend)) second_event) [] [] first_event)

Steps-given_example : given 2 overtaken ≡ 1
unfolding new
Steps-given_example = Steps-given 4 overtaken 2 (omega arith) interleaving
