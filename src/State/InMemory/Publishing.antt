-- ===== src/State/InMemory/Publishing.antt =====
-- Publishers that run at the same time on the in-memory backend (crates/h2ai-state/src/in_memory.rs):
-- each takes a number from the counter and, in a second step, pushes its event to the log.
use mathlib.Core.List.{map-append}
use native.Mathlib.Nat.{mod-eq_of_lt}
use h2ai_control_plane.Prelude.{
  ℕ, suc, ◌+◌, ◌≤◌, ◌<◌, ◌≡◌, ap, ◌∙◌, String, ◌&&◌, List, [], ◌∷◌, ◌++◌, map, arith, leb, u64,
  if◌then◌else◌,
}
use h2ai_control_plane.Task.Event.{H2aiEvent}
use h2ai_control_plane.State.InMemory.{InMemoryStateBackend, CapturedEvent, new, publish_to}
use h2ai_control_plane.Counting.{count, count-append}

-- The backend, and the events that have a number and are not in the log yet.
pub record Publishers (Text F64 : Type 0) : Type 0 where
  pub backend : InMemoryStateBackend Text F64
  pub in_flight : List CapturedEvent

abbrev pub seqs : List CapturedEvent → List ℕ
seqs es = map (λ e. e.seq) es

count-seqs :
    (n : ℕ) (xs ys : List CapturedEvent)
    → count n (seqs (xs ++ ys)) ≡ count n (seqs xs) + count n (seqs ys)
count-seqs n xs ys =
    ap (count n) (map-append (λ e. e.seq) xs ys) ∙ count-append n (seqs xs) (seqs ys)

module _ {Text F64 : Type 0} where
  abbrev pub captured : InMemoryStateBackend Text F64 → String → H2aiEvent → CapturedEvent
  captured b subject event = record { subject = subject; event = event; seq = u64 (b.next_seq + 1) }

  -- `next_seq.fetch_add(1)`
  abbrev pub numbered_by : InMemoryStateBackend Text F64 → InMemoryStateBackend Text F64
  numbered_by b = record b { next_seq = u64 (b.next_seq + 1) }

  -- `events.write().await.push(..)`
  abbrev pub pushed : InMemoryStateBackend Text F64 → CapturedEvent → InMemoryStateBackend Text F64
  pushed b e = record b { events = b.events ++ e ∷ [] }

  pub data Step : Publishers Text F64 → Publishers Text F64 → Type 0 where
    number :
        (b : InMemoryStateBackend Text F64) (waiting : List CapturedEvent) (subject : String)
        (event : H2aiEvent)
        → Step
            (record { backend = b; in_flight = waiting })
            (record {
              backend = numbered_by b;
              in_flight = waiting ++ captured b subject event ∷ [];
            })
    push :
        (b : InMemoryStateBackend Text F64) (before after : List CapturedEvent) (e : CapturedEvent)
        → Step
            (record { backend = b; in_flight = before ++ e ∷ after })
            (record { backend = pushed b e; in_flight = before ++ after })

  -- A number of steps, in any interleaving.
  pub data Steps (start : Publishers Text F64) : ℕ → Publishers Text F64 → Type 0 where
    none_yet : Steps start 0 start
    then_step :
        {k : ℕ} {s t : Publishers Text F64} → Steps start k s → Step s t → Steps start (suc k) t

  -- One publisher alone does what `publish_to` does.
  pub publish_to-Steps :
      (b : InMemoryStateBackend Text F64) (subject : String) (event : H2aiEvent)
      → Steps
          (record { backend = b; in_flight = [] })
          2
          (record { backend = (publish_to b subject event).0; in_flight = [] })
  unfolding publish_to
  publish_to-Steps b subject event =
      then_step (then_step none_yet (number b [] subject event))
        (push (numbered_by b) [] [] (captured b subject event))

  -- How often a number was given: it stands in the log or is in flight.
  abbrev pub given : ℕ → Publishers Text F64 → ℕ
  given n s = count n (seqs s.backend.events) + count n (seqs s.in_flight)

  record Numbered (k : ℕ) (s : Publishers Text F64) : Type 0 where
    pub few : s.backend.next_seq ≤ k
    pub once : (n : ℕ) → given n s ≡ (if leb 1 n && leb n s.backend.next_seq then 1 else 0)

  Step-Numbered :
      (k : ℕ) (s t : Publishers Text F64)
      → suc k < 18446744073709551616
      → Step s t
      → Numbered k s
      → Numbered (suc k) t
  Step-Numbered k s t small (number b waiting subject event) h =
      let plain : u64 (b.next_seq + 1) ≡ b.next_seq + 1 = mod-eq_of_lt (omega (arith, h.few)) in
      record {
        few = omega (arith, h.few, plain);
        once = λ n.
            rw plain (
              ground
                (arith, h.once n, plain, count-seqs n waiting (captured b subject event ∷ [])));
      }
  Step-Numbered k s t small (push b before after e) h = record {
    few = omega (arith, h.few);
    once = λ n. omega (
      arith,
      h.once n,
      count-seqs n b.events (e ∷ []),
      count-seqs n before (e ∷ after),
      count-seqs n before after,
      count-seqs n (e ∷ []) after,
    );
  }

  Steps-Numbered :
      (k : ℕ) (s : Publishers Text F64)
      → k < 18446744073709551616
      → Steps (record { backend = new Text F64; in_flight = [] }) k s
      → Numbered k s
  unfolding new
  Steps-Numbered k s small none_yet = record { few = omega arith; once = λ n. ground arith }
  Steps-Numbered k t small (then_step {k = j} {s = s} before last) =
      Step-Numbered j s t small last (Steps-Numbered j s (omega arith) before)

  -- However publishers interleave on a new backend, in fewer than 2 ^ 64 steps, every number up to the
  -- counter's was given once, to an event in the log or in flight, and no other number was given.
  pub Steps-given :
      (k : ℕ) (s : Publishers Text F64) (n : ℕ)
      → k < 18446744073709551616
      → Steps (record { backend = new Text F64; in_flight = [] }) k s
      → given n s ≡ (if leb 1 n && leb n s.backend.next_seq then 1 else 0)
  Steps-given k s n small steps = (Steps-Numbered k s small steps).once n
