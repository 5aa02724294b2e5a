-- ===== src/Apply/Ends.antt =====
-- crates/updater/src/apply/mod.rs: an acquisition ends once the queue has room and its transfers have
-- come to an end.
use retrovert.Common.{
  ℕ, zero, suc, ◌+◌, ◌≤◌, ◌≡◌, ◌≢◌, ◌⊎◌, refl, sym, subst, true, Option, none, some, List, [], ◌∷◌,
  is_some, arith, length, ltb, Option-cases, Bool-cases, inl, inr,
}
use retrovert.Common.Slices.{drop, length-drop-nil}
use retrovert.Common.Results.{ok, Result-cases}
use retrovert.Queue.{Priority}
use retrovert.Manifest.{Text, Artifact}
use retrovert.Manifest.Plan.{Plan}
use retrovert.Apply.{Error, request_for, refuse_collisions}
use retrovert.Apply.Install.{Files}
use retrovert.Apply.Acquire.{
  World, Acquiring, Stop, refused, out_of_bounds, sweep, fill, enter, begin_acquiring, flatten,
}
use retrovert.Apply.Rounds.{drop_cons}
use retrovert.Apply.Landed.{Lands}
use retrovert.Apply.Whole.{acquire-Lands}
use retrovert.Apply.Bounds.{acquire-Within}
use retrovert.Apply.Publish.{
  End, killed, acquired, stopped, is_acquired, swept, turn, turns, left, acquire,
}
use retrovert.Apply.Emptied.{is_over, sweep-Empties}

module _ {T : Type 0} (w : World T) (p : Plan) (base : Text) (priority : Priority) (round : ℕ)
    (room : (index : ℕ) → is_some (w.room round index) ≡ true) where
  abbrev Fills : Acquiring × Option (Stop T) → Type 0
  Fills r = r.1 ≡ none → length p.artifacts ≤ r.0.next

  fill-Fills :
      (artifacts : List Artifact) (s : Acquiring)
      → drop s.next p.artifacts ≡ artifacts
      → Fills (fill w p base priority artifacts round s)
  unfolding fill
  fill-Fills [] s here = λ h. length-drop-nil s.next p.artifacts here
  fill-Fills (a ∷ rest) s here =
      let (_, next) = drop_cons s.next p.artifacts a rest here in
      elim (Result-cases (request_for {T = T} base a p.release_version priority)) [
        | inr (e, is) ↦ rw (is, fill) (λ h. absurd (ground (arith, h)))
        | inl (r, is) ↦ elim (Option-cases (w.room round s.next)) [
          | inl full ↦ absurd (ground (arith, full, room s.next))
          | inr (id, some_room) ↦ rw (is, some_room, fill) (fill-Fills rest (enter s id) next)
        ]
      ]

module _ {T : Type 0} (sha : List ℕ → List ℕ) (w : World T) (p : Plan) (base : Text)
    (priority : Priority) where
  abbrev Acquires : Acquiring × Option (Stop T) → Type 0
  Acquires r = r.1 ≡ none → is_acquired sha w p base priority r.0 ≡ true

  is_acquired_full :
      (s : Acquiring)
      → length p.artifacts ≤ s.next
      → s.active ≡ []
      → is_acquired sha w p base priority s ≡ true
  is_acquired_full s long empty = elim (Bool-cases (ltb s.next (length p.artifacts))) [
    | inl short ↦ absurd (ground (arith, short, long))
    | inr full ↦ rw (full, empty) refl
  ]

  swept-Acquires :
      (round : ℕ) (r : Acquiring × Option (Stop T))
      → ((id : ℕ) → is_over (w.state round id) ≡ true)
      → (r.1 ≡ none → length p.artifacts ≤ r.0.next)
      → Acquires (swept sha w p base priority round r)
  swept-Acquires round (s, some e) over long h = absurd (ground (arith, h))
  swept-Acquires round (s, none) over long h =
      let (empty, same) = sweep-Empties sha w p round over (length s.active) s.active s refl h in
      is_acquired_full (sweep sha w p (length s.active) [] s.active round s).0
        (subst (λ n. length p.artifacts ≤ n) (sym same) (long refl)) empty

  turn-Acquires :
      (round : ℕ) (s : Acquiring)
      → ((index : ℕ) → is_some (w.room round index) ≡ true)
      → ((id : ℕ) → is_over (w.state round id) ≡ true)
      → Acquires (turn sha w p base priority round s)
  unfolding turn
  turn-Acquires round s room over =
      swept-Acquires round (fill w p base priority (drop s.next p.artifacts) round s) over
        (fill-Fills w p base priority round room (drop s.next p.artifacts) s refl)

  -- From this round on, the queue has room and its transfers are over.
  abbrev pub Settled : ℕ → Type 0
  Settled from =
      ((round index : ℕ) → from ≤ round → is_some (w.room round index) ≡ true)
      × ((round id : ℕ) → from ≤ round → is_over (w.state round id) ≡ true)

  turns-zero :
      (round : ℕ) (s : Acquiring)
      → is_acquired sha w p base priority s ≡ true
      → (turns sha w p base priority zero round s).1 ≢ killed
  unfolding turns
  turns-zero round s is = rw (is, turns) (λ h. ground (arith, h))

  turns_ends :
      (from rounds round : ℕ) (s : Acquiring)
      → Settled from
      → from ≤ round + rounds
      → (turns sha w p base priority (suc rounds) round s).1 ≢ killed
  unfolding turns
  turns_ends from zero round s settled late =
      elim (Bool-cases (is_acquired sha w p base priority s)) [
        | inl is ↦ rw (is, turns) (λ h. ground (arith, h))
        | inr is ↦ elim (Option-cases (turn sha w p base priority round s).1) [
          | inr (e, stops) ↦ rw (is, stops, turns) (λ h. ground (arith, h))
          | inl goes ↦
              rw (is, goes, turns)
                (turns-zero (round + 1) (turn sha w p base priority round s).0 (
                  turn-Acquires round s (λ index. settled.0 round index (omega (arith, late)))
                    (λ id. settled.1 round id (omega (arith, late))) goes))
        ]
      ]
  turns_ends from (suc rounds) round s settled late =
      elim (Bool-cases (is_acquired sha w p base priority s)) [
        | inl is ↦ rw (is, turns) (λ h. ground (arith, h))
        | inr is ↦ elim (Option-cases (turn sha w p base priority round s).1) [
          | inr (e, stops) ↦ rw (is, stops, turns) (λ h. ground (arith, h))
          | inl goes ↦
              rw (is, goes, turns)
                (turns_ends from rounds (round + 1) (turn sha w p base priority round s).0 settled
                  (omega (arith, late)))
        ]
      ]

  left_ends : (r : Acquiring × End T) → r.1 ≢ killed → (left sha w p base priority r).1 ≢ killed
  left_ends (s, killed) ends h = ends refl
  left_ends (s, acquired) ends h = ground (arith, h)
  left_ends (s, stopped e) ends h = ground (arith, h)

  acquire_runs :
      (from : ℕ) (files : Files)
      → Settled from
      → (acquire sha w p base priority (from + 1) files).1 ≢ killed
  unfolding acquire
  acquire_runs from files settled =
      let s = begin_acquiring p.artifacts files in
      let one_more : suc from ≡ from + 1 = omega arith in
      left_ends (turns sha w p base priority (from + 1) 0 s) (
        subst (λ n. (turns sha w p base priority n 0 s).1 ≢ killed) one_more
          (turns_ends from from 0 s settled (omega arith)))

  End-cases :
      (x : End T)
      → x ≢ killed
      → x ≢ stopped out_of_bounds
      → (x ≡ acquired) ⊎ ((e : Error T) × (x ≡ stopped (refused e)))
  End-cases killed runs within = absurd (runs refl)
  End-cases acquired runs within = inl refl
  End-cases (stopped (refused e)) runs within = inr (e, refl)
  End-cases (stopped out_of_bounds) runs within = absurd (within refl)

  -- If from some round on the queue has room for every artifact and its transfers are over, then an
  -- acquisition of artifacts whose paths do not collide ends within one round more than that: either
  -- all of the artifacts are placed, in order and each with the bytes of its digest in its file, or
  -- it is refused with an error; it never indexes past the artifacts.
  pub acquire-ends :
      (from : ℕ) (files : Files)
      → Settled from
      → refuse_collisions {T = T} [] p.artifacts ≡ ok tt
      → (((acquire sha w p base priority (from + 1) files).1 ≡ acquired)
          × Lands sha
              (acquire sha w p base priority (from + 1) files).0.files
              p.artifacts
              (flatten (acquire sha w p base priority (from + 1) files).0.placed))
        ⊎ ((e : Error T) × ((acquire sha w p base priority (from + 1) files).1
              ≡ stopped (refused e)))
  acquire-ends from files settled distinct =
      elim (End-cases (acquire sha w p base priority (from + 1) files).1
        (acquire_runs from files settled) (acquire-Within sha w p base priority (from + 1) files)) [
          | inr stops ↦ inr stops
          | inl is ↦ inl (is, acquire-Lands sha w p base priority (from + 1) files distinct is)
        ]
