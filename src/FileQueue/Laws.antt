-- ===== src/FileQueue/Laws.antt =====
-- What the queue's lists hold: the handlers in them and how often.
use vacps.Prelude.{
  if-keeps, ℕ, ◌+◌, ◌≡◌, refl, ap, arith, List, [], ◌∷◌, ◌++◌, Option, none, some, ◌==◌,
  if◌then◌else◌,
}
use vacps.FileQueue.{Entry, Work, grants, aborts, cancels, find_waiter}

unfoldable pub grants_of : List Work → List ℕ
grants_of [] = []
grants_of (grants h ∷ rest) = h ∷ grants_of rest
grants_of (aborts h ∷ rest) = grants_of rest
grants_of (cancels id ∷ rest) = grants_of rest

unfoldable pub aborts_of : List Work → List ℕ
aborts_of [] = []
aborts_of (grants h ∷ rest) = aborts_of rest
aborts_of (aborts h ∷ rest) = h ∷ aborts_of rest
aborts_of (cancels id ∷ rest) = aborts_of rest

unfoldable pub waiting : List Entry → List ℕ
waiting [] = []
waiting (e ∷ rest) = e.complete ∷ waiting rest

unfoldable pub count : ℕ → List ℕ → ℕ
count h [] = 0
count h (k ∷ rest) = (if k == h then 1 else 0) + count h rest

pub grants_of-append : (xs ys : List Work) → grants_of (xs ++ ys) ≡ grants_of xs ++ grants_of ys
unfolding grants_of
grants_of-append [] ys = refl
grants_of-append (grants h ∷ xs) ys = ap (◌∷◌ h) (grants_of-append xs ys)
grants_of-append (aborts h ∷ xs) ys = grants_of-append xs ys
grants_of-append (cancels id ∷ xs) ys = grants_of-append xs ys

pub aborts_of-append : (xs ys : List Work) → aborts_of (xs ++ ys) ≡ aborts_of xs ++ aborts_of ys
unfolding aborts_of
aborts_of-append [] ys = refl
aborts_of-append (grants h ∷ xs) ys = aborts_of-append xs ys
aborts_of-append (aborts h ∷ xs) ys = ap (◌∷◌ h) (aborts_of-append xs ys)
aborts_of-append (cancels id ∷ xs) ys = aborts_of-append xs ys

pub waiting-append : (xs ys : List Entry) → waiting (xs ++ ys) ≡ waiting xs ++ waiting ys
unfolding waiting
waiting-append [] ys = refl
waiting-append (e ∷ xs) ys = ap (◌∷◌ e.complete) (waiting-append xs ys)

pub count-append : (h : ℕ) (xs ys : List ℕ) → count h (xs ++ ys) ≡ count h xs + count h ys
unfolding count
count-append h [] ys = omega arith
count-append h (k ∷ xs) ys = omega (arith, count-append h xs ys)

-- A list without one occurrence of an entry.
pub data Removed (e : Entry) : List Entry → List Entry → Type 0 where
  here : {rest : List Entry} → Removed e (e ∷ rest) rest
  there : {d : Entry} {es rest : List Entry} → Removed e es rest → Removed e (d ∷ es) (d ∷ rest)

abbrev pub IsSplit : List Entry → Option (Entry × List Entry) → Type 0
IsSplit es none = Unit
IsSplit es (some p) = Removed p.0 es p.1

IsSplit-there :
    (e : Entry) (es : List Entry) (o : Option (Entry × List Entry))
    → IsSplit es o
    → IsSplit (e ∷ es) (elim o [ none ↦ none | some p ↦ some (p.0, e ∷ p.1) ])
IsSplit-there e es none h = tt
IsSplit-there e es (some p) h = there h

pub find_waiter-IsSplit : (id : ℕ) (es : List Entry) → IsSplit es (find_waiter id es)
unfolding find_waiter
find_waiter-IsSplit id [] = tt
find_waiter-IsSplit id (e ∷ rest) =
    if-keeps (IsSplit (e ∷ rest)) (e.id == id) _ _ here
      (IsSplit-there e rest _ (find_waiter-IsSplit id rest))

pub count-Removed :
    (h : ℕ) {e : Entry} {es rest : List Entry}
    → Removed e es rest
    → count h (waiting es) ≡ (if e.complete == h then 1 else 0) + count h (waiting rest)
unfolding count waiting
count-Removed h here = refl
count-Removed h (there r) = omega (arith, count-Removed h r)
