-- ===== src/HttpServer/Lifecycle/Children.antt =====
-- The live sessions of a server, and what its operations do to them.
use vacps.Prelude.{
  ℕ, ◌+◌, ◌≡◌, refl, arith, List, [], ◌∷◌, ◌++◌, Bool, true, false, not, ◌&&◌, ◌||◌, ◌==◌,
  if◌then◌else◌, if-split, if-keeps,
}
use vacps.HttpServer.Lifecycle.{Child, drop_expired, cancel_each, end_child}

unfoldable pub live_count : List Child → ℕ
live_count [] = 0
live_count (c ∷ cs) = (if c.live then 1 else 0) + live_count cs

unfoldable pub has_live : ℕ → List Child → Bool
has_live id [] = false
has_live id (c ∷ cs) = (c.live && c.id == id) || has_live id cs

-- Whether every session that still runs was cancelled.
unfoldable pub all_cancelled : List Child → Bool
all_cancelled [] = true
all_cancelled (c ∷ cs) = (not c.live || c.cancelled) && all_cancelled cs

pub live_count-append : (xs ys : List Child) → live_count (xs ++ ys) ≡ live_count xs + live_count ys
unfolding live_count
live_count-append [] ys = omega arith
live_count-append (c ∷ xs) ys = omega (arith, live_count-append xs ys)

pub live_count-drop_expired : (cs : List Child) → live_count (drop_expired cs) ≡ live_count cs
unfolding live_count drop_expired
live_count-drop_expired [] = refl
live_count-drop_expired (c ∷ cs) =
    if-split (λ (ds : List Child). live_count ds ≡ (if c.live then 1 else 0) + live_count cs) c.live
      _ _ (λ h. rw h (omega (arith, live_count-drop_expired cs)))
      (λ h. rw h (omega (arith, live_count-drop_expired cs)))

cancelled_live : (c : Child) → (if c.live then record c { cancelled = true } else c).live ≡ c.live
cancelled_live c = if-keeps (λ (d : Child). d.live ≡ c.live) c.live _ _ refl refl

pub live_count-cancel_each : (cs : List Child) → live_count (cancel_each cs) ≡ live_count cs
unfolding live_count cancel_each
live_count-cancel_each [] = refl
live_count-cancel_each (c ∷ cs) = rw (cancelled_live c) (omega (arith, live_count-cancel_each cs))

pub all_cancelled-cancel_each : (cs : List Child) → all_cancelled (cancel_each cs) ≡ true
unfolding all_cancelled cancel_each
all_cancelled-cancel_each [] = refl
all_cancelled-cancel_each (c ∷ cs) = rw (all_cancelled-cancel_each cs) (
    if-split (λ (d : Child). ((not d.live || d.cancelled) && true) ≡ true) c.live _ _
      (λ h. ground arith) (λ h. ground arith))

pub live_count-end_child :
    (id : ℕ) (cs : List Child)
    → has_live id cs ≡ true
    → live_count cs ≡ live_count (end_child id cs) + 1
unfolding live_count has_live end_child
live_count-end_child id [] h = absurd (ground arith)
live_count-end_child id (c ∷ cs) h =
    if-split (λ (ds : List Child). (if c.live then 1 else 0) + live_count cs ≡ live_count ds + 1)
      (c.live && c.id == id) _ _ (λ g. ground arith)
      (λ g. ground (arith, live_count-end_child id cs))

pub all_cancelled-end_child :
    (id : ℕ) (cs : List Child) → all_cancelled cs ≡ true → all_cancelled (end_child id cs) ≡ true
unfolding all_cancelled end_child
all_cancelled-end_child id [] h = refl
all_cancelled-end_child id (c ∷ cs) h =
    if-split (λ (ds : List Child). all_cancelled ds ≡ true) (c.live && c.id == id) _ _
      (λ g. ground arith) (λ g. ground (arith, all_cancelled-end_child id cs))
