-- ===== src/Interpreter/Goes.antt =====
-- Sequences of handlers with the events that they yield, and the calls of `nextEvent` that make
-- them.
use libvda5050pp.Common.{
  ℕ, zero, suc, ◌≤◌, ◌≡◌, ◌≢◌, ◌⊎◌, inl, inr, refl, sym, ◌∙◌, List, [], ◌∷◌, ◌++◌, arith, Error,
}
use libvda5050pp.Interpreter.Events.{Event}
use libvda5050pp.Interpreter.Iter.{EventIter, Step, skip, yield_event, finished, failed}
use libvda5050pp.Interpreter.Handlers.{
  handle, exhausted, next_event, Interpretation, all_events, aborted, unfinished, interpret,
}

pub data Goes : EventIter → List Event → EventIter → Type 0 where
  here : {it : EventIter} → Goes it [] it
  skips :
      {it it₁ it₂ : EventIter} {es : List Event}
      → handle it ≡ skip it₁
      → Goes it₁ es it₂
      → Goes it es it₂
  yields :
      {it it₁ it₂ : EventIter} {e : Event} {es : List Event}
      → handle it ≡ yield_event e it₁
      → Goes it₁ es it₂
      → Goes it (e ∷ es) it₂

pub Goes-append :
    {it it₁ it₂ : EventIter} {es fs : List Event}
    → Goes it es it₁
    → Goes it₁ fs it₂
    → Goes it (es ++ fs) it₂
Goes-append here g = g
Goes-append (skips h f) g = skips h (Goes-append f g)
Goes-append (yields h f) g = yields h (Goes-append f g)

Step-cases :
    (s : Step)
    → ((it : EventIter) × (s ≡ skip it))
      ⊎ ((e : Event) × (it : EventIter) × (s ≡ yield_event e it))
      ⊎ (s ≡ finished)
      ⊎ ((x : Error) × (s ≡ failed x))
Step-cases (skip it) = inl (it, refl)
Step-cases (yield_event e it) = inr (inl (e, it, refl))
Step-cases finished = inr (inr (inl refl))
Step-cases (failed x) = inr (inr (inr (x, refl)))

next_event-zero : (it : EventIter) → next_event zero it ≡ exhausted
unfolding next_event
next_event-zero it = refl

next_event-skip :
    (fuel : ℕ) (it it' : EventIter)
    → handle it ≡ skip it'
    → next_event (suc fuel) it ≡ next_event fuel it'
unfolding next_event
next_event-skip fuel it it' h = ground arith

next_event-stop :
    (fuel fuel' : ℕ) (it : EventIter)
    → ((it' : EventIter) → handle it ≢ skip it')
    → next_event (suc fuel) it ≡ next_event (suc fuel') it
unfolding next_event
next_event-stop fuel fuel' it h = elim (Step-cases (handle it)) [
  | inl (it', e) ↦ absurd (h it' e)
  | inr (inl (x, it', e)) ↦ ground arith
  | inr (inr (inl e)) ↦ ground arith
  | inr (inr (inr (x, e))) ↦ ground arith
]

-- More fuel changes nothing once `nextEvent` returns.
next_event_mono :
    (fuel : ℕ) (it : EventIter)
    → next_event fuel it ≢ exhausted
    → next_event (suc fuel) it ≡ next_event fuel it
next_event_mono zero it h = absurd (h (next_event-zero it))
next_event_mono (suc fuel) it h = elim (Step-cases (handle it)) [
  | inl (it', e) ↦
      next_event-skip (suc fuel) it it' e
      ∙ next_event_mono fuel it' (λ p. h (next_event-skip fuel it it' e ∙ p))
      ∙ sym (next_event-skip fuel it it' e)
  | inr (inl (x, it', e)) ↦ next_event-stop (suc fuel) fuel it (λ y p. cc)
  | inr (inr (inl e)) ↦ next_event-stop (suc fuel) fuel it (λ y p. cc)
  | inr (inr (inr (x, e))) ↦ next_event-stop (suc fuel) fuel it (λ y p. cc)
]

interpret_finished :
    (i j : ℕ) (it : EventIter)
    → 1 ≤ i
    → 1 ≤ j
    → handle it ≡ finished
    → interpret i j it ≡ ([], all_events)
unfolding interpret next_event
interpret_finished zero j it p q h = absurd (omega arith)
interpret_finished (suc i) zero it p q h = absurd (omega arith)
interpret_finished (suc i) (suc j) it p q h = ground arith

interpret_failed :
    (i j : ℕ) (it : EventIter) (x : Error)
    → 1 ≤ i
    → 1 ≤ j
    → handle it ≡ failed x
    → interpret i j it ≡ ([], aborted x)
unfolding interpret next_event
interpret_failed zero j it x p q h = absurd (omega arith)
interpret_failed (suc i) zero it x p q h = absurd (omega arith)
interpret_failed (suc i) (suc j) it x p q h = ground arith

interpret_yield :
    (i j f r : ℕ) (it it₁ : EventIter) (e : Event) (es : List Event) (o : Interpretation)
    → handle it ≡ yield_event e it₁
    → ((k l : ℕ) → f ≤ k → r ≤ l → interpret k l it₁ ≡ (es, o))
    → suc f ≤ i
    → suc r ≤ j
    → interpret i j it ≡ (e ∷ es, o)
unfolding interpret next_event
interpret_yield zero j f r it it₁ e es o h g p q = absurd (omega arith)
interpret_yield (suc i) zero f r it it₁ e es o h g p q = absurd (omega arith)
interpret_yield (suc i) (suc j) f r it it₁ e es o h g p q =
    let rest : interpret (suc i) j it₁ ≡ (es, o) = g (suc i) j (omega arith) (omega arith) in
    ground arith

interpret_skip :
    (i j f r : ℕ) (it it₁ : EventIter) (es : List Event) (o : Interpretation)
    → o ≢ unfinished
    → handle it ≡ skip it₁
    → ((k l : ℕ) → f ≤ k → r ≤ l → interpret k l it₁ ≡ (es, o))
    → suc f ≤ i
    → r ≤ j
    → interpret i j it ≡ (es, o)
unfolding interpret next_event
interpret_skip zero j f r it it₁ es o u h g p q = absurd (omega arith)
interpret_skip (suc i) zero f r it it₁ es o u h g p q =
    let none_left : interpret i zero it₁ ≡ (es, o) = g i zero (omega arith) q in ground arith
interpret_skip (suc i) (suc j) f r it it₁ es o u h g p q =
    let less : interpret i (suc j) it₁ ≡ (es, o) = g i (suc j) (omega arith) q in
    let more : interpret (suc i) (suc j) it₁ ≡ (es, o) = g (suc i) (suc j) (omega arith) q in
    ground (arith, next_event_mono i it₁)

run_of_Goes :
    {it it' : EventIter} {es : List Event}
    → Goes it es it'
    → (o : Interpretation) → o ≢ unfinished
    → ((i j : ℕ) → 1 ≤ i → 1 ≤ j → interpret i j it' ≡ ([], o))
    → (f : ℕ) × (r : ℕ) × ((i j : ℕ) → f ≤ i → r ≤ j → interpret i j it ≡ (es, o))
run_of_Goes {it} here o u h = (1, 1, h)
run_of_Goes {it} {es} (skips {it₁ = it₁} e g) o u h =
    let (f, r, rest) = run_of_Goes g o u h in
    (suc f, r, λ i j p q. interpret_skip i j f r it it₁ es o u e rest p q)
run_of_Goes {it} (yields {it₁ = it₁} {e = x} {es = es} e g) o u h =
    let (f, r, rest) = run_of_Goes g o u h in
    (suc f, suc r, λ i j p q. interpret_yield i j f r it it₁ x es o e rest p q)

-- With enough fuel the loop returns the events.
pub interpret_of_Goes :
    {it it' : EventIter} {es : List Event}
    → Goes it es it'
    → handle it' ≡ finished
    → (f : ℕ) × (r : ℕ) × ((i j : ℕ) → f ≤ i → r ≤ j → interpret i j it ≡ (es, all_events))
interpret_of_Goes {it' = it'} g h =
    run_of_Goes g all_events (λ p. cc) (λ i j p q. interpret_finished i j it' p q h)

pub interpret_of_failure :
    {it it' : EventIter} {es : List Event} {x : Error}
    → Goes it es it'
    → handle it' ≡ failed x
    → (f : ℕ) × (r : ℕ) × ((i j : ℕ) → f ≤ i → r ≤ j → interpret i j it ≡ (es, aborted x))
interpret_of_failure {it' = it'} {x = x} g h =
    run_of_Goes g (aborted x) (λ p. cc) (λ i j p q. interpret_failed i j it' x p q h)
