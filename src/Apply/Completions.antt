-- ===== src/Apply/Completions.antt =====
-- crates/updater/src/apply/mod.rs: the generations that an applier has published, each offered once.
use retrovert.Common.{
  ℕ, ◌+◌, ◌≡◌, refl, sym, ap, ◌∙◌, Bool, true, false, ◌||◌, Option, none, some, List, [], ◌∷◌, ◌++◌,
  arith, if◌then◌else◌, Bool-cases, inl, inr,
}
use retrovert.Manifest.{Text, text_eq}
use retrovert.Apply.Distinct.{text_eq-eq}
use retrovert.Apply.Install.{Generation, names}
use retrovert.Apply.Publish.{Outcome, killed, stopped, published}

pub record Reported : Type 0 where
  pub seen : List Text
  pub pending : List Generation

-- `Reported::default`
abbrev pub unreported : Reported
unreported = record { seen = []; pending = [] }

-- By whether the id was seen.
abbrev pub note : Bool → Reported → Generation → Reported
note true r g = r
note false r g = record { seen = g.id ∷ r.seen; pending = r.pending ++ g ∷ [] }

-- `Completions::record`
unfoldable pub record_completion : Reported → Generation → Reported
record_completion r g = note (names g.id r.seen) r g

-- `pop_front`
abbrev pub pop_front : List Generation → Option Generation × List Generation
pop_front [] = (none, [])
pop_front (g ∷ rest) = (some g, rest)

unfoldable pub next_completed : Reported → Option Generation × Reported
next_completed r = ((pop_front r.pending).0, record r { pending = (pop_front r.pending).1 })

-- The end of an apply, which records what it returns, or a reader that asks.
pub data Call (T : Type 0) : Type 0 where
  applied : Outcome T → Call T
  asks : Call T

abbrev pub record_outcome : {T : Type 0} → Reported → Outcome T → Reported
record_outcome r (published g) = record_completion r g
record_outcome r (stopped e) = r
record_outcome r killed = r

abbrev offer : Option Generation → List Generation → List Generation
offer none gs = gs
offer (some g) gs = g ∷ gs

-- What the readers of one process were offered, in order, and what is left.
unfoldable pub offers : {T : Type 0} → Reported → List (Call T) → List Generation × Reported
unfolding next_completed
offers r [] = ([], r)
offers r (applied o ∷ rest) = offers (record_outcome r o) rest
offers r (asks ∷ rest) =
    let (g, r') = next_completed r in let (gs, last) = offers r' rest in (offer g gs, last)

-- How many have that id.
abbrev pub count : Text → List Generation → ℕ
count id [] = 0
count id (g ∷ gs) = (if text_eq id g.id then 1 else 0) + count id gs

abbrev has_id : Text → Option Generation → ℕ
has_id id none = 0
has_id id (some g) = if text_eq id g.id then 1 else 0

count-append :
    (id : Text) (gs hs : List Generation) → count id (gs ++ hs) ≡ count id gs + count id hs
count-append id [] hs = omega arith
count-append id (g ∷ gs) hs = omega (arith, count-append id gs hs)

count-offer :
    (id : Text) (o : Option Generation) (gs : List Generation)
    → count id (offer o gs) ≡ has_id id o + count id gs
count-offer id none gs = omega arith
count-offer id (some g) gs = refl

abbrev pub one_if : Bool → ℕ
one_if true = 1
one_if false = 0

-- Whether some apply returned a generation of that id.
abbrev pub returns : {T : Type 0} → Text → List (Call T) → Bool
returns id [] = false
returns id (applied (published g) ∷ rest) = text_eq id g.id || returns id rest
returns id (applied (stopped e) ∷ rest) = returns id rest
returns id (applied killed ∷ rest) = returns id rest
returns id (asks ∷ rest) = returns id rest

-- With those that were offered before, each id that was seen is there once.
abbrev Once : Text → ℕ → Reported → Type 0
Once id before r = before + count id r.pending ≡ one_if (names id r.seen)

note-Once :
    (id : Text) (before : ℕ) (r : Reported) (g : Generation) (b : Bool)
    → names g.id r.seen ≡ b
    → Once id before r
    → Once id before (note b r g)
      × (names id (note b r g).seen ≡ (text_eq id g.id || names id r.seen))
note-Once id before r g true known h = elim (Bool-cases (text_eq id g.id)) [
  | inl same ↦ (h, ap (λ k. names k r.seen) (text_eq-eq id g.id same) ∙ known ∙ sym (rw same refl))
  | inr other ↦ (h, rw other refl)
]
note-Once id before r g false new h =
    let appended = count-append id r.pending (g ∷ []) in
    elim (Bool-cases (text_eq id g.id)) [
      | inl same ↦
          let unseen : names id r.seen ≡ false =
            ap (λ k. names k r.seen) (text_eq-eq id g.id same) ∙ new in
          let one : before + count id (r.pending ++ g ∷ []) ≡ 1 =
            omega
              (arith, h, ap one_if unseen, appended, ap (λ b. if◌then◌else◌ {A = ℕ} b 1 0) same) in
          (one ∙ ap (λ b. one_if (b || names id r.seen)) (sym same), refl)
      | inr other ↦
          let none_more : before + count id (r.pending ++ g ∷ []) ≡ one_if (names id r.seen) =
            omega (arith, h, appended, ap (λ b. if◌then◌else◌ {A = ℕ} b 1 0) other) in
          (none_more ∙ ap (λ b. one_if (b || names id r.seen)) (sym other), refl)
    ]

pop_front-count :
    (id : Text) (gs : List Generation)
    → has_id id (pop_front gs).0 + count id (pop_front gs).1 ≡ count id gs
pop_front-count id [] = refl
pop_front-count id (g ∷ gs) = refl

or_false : (a : Bool) → one_if (a || false) ≡ one_if a
or_false true = refl
or_false false = refl

or_swap : (a b c : Bool) → one_if ((a || b) || c) ≡ one_if (b || (a || c))
or_swap true true c = refl
or_swap true false c = refl
or_swap false b c = refl

offers-Once :
    {T : Type 0} (id : Text) (before : ℕ) (r : Reported) (calls : List (Call T))
    → Once id before r
    → before + count id (offers r calls).0 + count id (offers r calls).1.pending
      ≡ one_if (names id r.seen || returns id calls)
unfolding offers next_completed record_completion
offers-Once id before r [] h = omega (arith, h, or_false (names id r.seen))
offers-Once id before r (applied killed ∷ rest) h = offers-Once id before r rest h
offers-Once id before r (applied (stopped e) ∷ rest) h = offers-Once id before r rest h
offers-Once id before r (applied (published g) ∷ rest) h =
    let (noted, seen) = note-Once id before r g (names g.id r.seen) refl h in
    offers-Once id before (record_completion r g) rest noted
    ∙ ap (λ b. one_if (b || returns id rest)) seen
    ∙ or_swap (text_eq id g.id) (names id r.seen) (returns id rest)
offers-Once id before r (asks ∷ rest) h =
    let (g, r') = next_completed r in
    let counted = pop_front-count id r.pending in
    let later = offers-Once id (before + has_id id g) r' rest (omega (arith, h, counted)) in
    omega (arith, later, count-offer id g (offers r' rest).0)

-- Of each id, as many generations were offered or wait to be as there are if each is offered once: one
-- if an apply returned a generation of that id, and none if not.
pub count-offers :
    {T : Type 0} (id : Text) (calls : List (Call T))
    → count id (offers unreported calls).0 + count id (offers unreported calls).1.pending
      ≡ one_if (returns id calls)
count-offers id calls = omega (arith, offers-Once id 0 unreported calls refl)
