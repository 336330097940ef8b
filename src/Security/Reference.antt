-- ===== src/Security/Reference.antt =====
-- ting_ting/security.py, RateLimiter: its decision as a function of the calls that it let through.
use biexce_social_network.Prelude.{
  ℕ, Bool, true, List, [], ◌∷◌, ◌++◌, ◌+◌, ◌≡◌, ◌≤◌, ◌<◌, refl, leb, ltb, if◌then◌else◌, arith,
  Bool-cases, inl, inr, ap, ◌∙◌, count_where, count_where-append,
}
use biexce_social_network.Security.{Text, text_eq}
use biexce_social_network.Security.Limiter.{
  Events, Limiter, length, events_of, drop_expired, admit, allow,
}
use biexce_social_network.Security.Calls.{
  Call, InOrder, later, granted, run, admitted, deque_after, granted-eq-admitted, events_of-run,
}

-- Every time is at least, or at most, `x`.
AllFrom : ℕ → Events → Type 0
AllFrom x [] = Unit
AllFrom x (e ∷ es) = (x ≤ e) × AllFrom x es

AllTo : ℕ → Events → Type 0
AllTo x [] = Unit
AllTo x (e ∷ es) = (e ≤ x) × AllTo x es

Ascending : Events → Type 0
Ascending [] = Unit
Ascending (e ∷ es) = AllFrom e es × Ascending es

-- A deque as the limiter keeps it, at the time `x`.
record IsLog (x : ℕ) (es : Events) : Type 0 where
  ascending : Ascending es
  past : AllTo x es

-- Every call is at least `w` older than `t`.
unfoldable pub AllOver : ℕ → ℕ → List Call → Type 0
AllOver w t [] = Unit
AllOver w t (c ∷ cs) = (c.time + w ≤ t) × AllOver w t cs

abbrev alive : ℕ → ℕ → ℕ → Bool
alive w t e = ltb t (e + w)

-- The calls of the log that still count at the time `t`.
pub still : ℕ → ℕ → Events → ℕ
still w t = count_where (alive w t)

AllFrom-snoc : (x y : ℕ) (es : Events) → AllFrom x es → x ≤ y → AllFrom x (es ++ y ∷ [])
unfolding AllFrom
AllFrom-snoc x y [] a h = (h, tt)
AllFrom-snoc x y (e ∷ es) a h = (a.0, AllFrom-snoc x y es a.1 h)

AllTo-snoc : (x y : ℕ) (es : Events) → AllTo x es → x ≤ y → AllTo y (es ++ y ∷ [])
unfolding AllTo
AllTo-snoc x y [] a h = (omega arith, tt)
AllTo-snoc x y (e ∷ es) a h = (omega arith, AllTo-snoc x y es a.1 h)

AllTo_mono : (x y : ℕ) (es : Events) → AllTo x es → x ≤ y → AllTo y es
unfolding AllTo
AllTo_mono x y [] a h = tt
AllTo_mono x y (e ∷ es) a h = (omega arith, AllTo_mono x y es a.1 h)

Ascending-snoc :
    (x y : ℕ) (es : Events) → Ascending es → AllTo x es → x ≤ y → Ascending (es ++ y ∷ [])
unfolding Ascending AllTo AllFrom
Ascending-snoc x y [] a b h = (tt, tt)
Ascending-snoc x y (e ∷ es) a b h =
    (AllFrom-snoc e y es a.0 (omega arith), Ascending-snoc x y es a.1 b.1 h)

-- Whatever holds of a log holds after its oldest entries are dropped.
drop-IsLog :
    (w x y : ℕ) (es : Events)
    → Ascending es
    → AllTo y es
    → Ascending (drop_expired w x es) × AllTo y (drop_expired w x es)
unfolding drop_expired Ascending AllTo
drop-IsLog w x y [] a b = (tt, tt)
drop-IsLog w x y (e ∷ es) a b = elim (Bool-cases (leb (e + w) x)) [
  | inl h ↦ rw h (drop-IsLog w x y es a.1 b.1)
  | inr h ↦ rw h (a, b)
]

admit-IsLog : (w limit x y : ℕ) (es : Events) → IsLog x es → x ≤ y → IsLog y (admit limit w y es).1
unfolding admit
admit-IsLog w limit x y es l h =
    let d = drop-IsLog w y x es l.ascending l.past in
    let kept = drop_expired w y es in
    elim (Bool-cases (leb limit (length kept))) [
      | inl full ↦ rw full (record { ascending = d.0; past = AllTo_mono x y kept d.1 h })
      | inr room ↦ rw room (record {
        ascending = Ascending-snoc x y kept d.0 d.1 h;
        past = AllTo-snoc x y kept d.1 h;
      })
    ]

still_all : (w t e : ℕ) (es : Events) → AllFrom e es → t < e + w → still w t es ≡ length es
unfolding still count_where AllFrom
still_all w t e [] a h = refl
still_all w t e (f ∷ es) a h = ground (arith, still_all w t e es a.1 h)

-- Popping the expired entries from the front of a log leaves those that still count.
length-drop : (w t : ℕ) (es : Events) → Ascending es → length (drop_expired w t es) ≡ still w t es
unfolding drop_expired still count_where Ascending
length-drop w t [] a = refl
length-drop w t (e ∷ es) a = ground (arith, length-drop w t es a.1, still_all w t e es a.0)

still-drop : (w x t : ℕ) (es : Events) → x ≤ t → still w t (drop_expired w x es) ≡ still w t es
unfolding drop_expired still count_where
still-drop w x t [] h = refl
still-drop w x t (e ∷ es) h = ground (arith, still-drop w x t es h)

-- A call hands what it lets through to the deque.
still-admit :
    (w limit x t : ℕ) (es rest : Events)
    → x ≤ t
    → still w t es + still w t (if (admit limit w x es).0 then x ∷ rest else rest)
      ≡ still w t (admit limit w x es).1 + still w t rest
unfolding admit still
still-admit w limit x t es rest h =
    let kept = drop_expired w x es in
    ground (
      arith,
      still-drop w x t es h,
      count_where-append (alive w t) kept (x ∷ []),
      count_where-append (alive w t) (x ∷ []) rest,
    )

admit-decides :
    (limit w t : ℕ) (es : Events) → Ascending es → (admit limit w t es).0 ≡ ltb (still w t es) limit
unfolding admit
admit-decides limit w t es a = ground (arith, length-drop w t es a)

module _ (limit_of : Text → ℕ) (w : ℕ) where
  still_none : (t : ℕ) → still w t [] ≡ 0
  unfolding still count_where
  still_none t = refl

  empty-IsLog : {x : ℕ} → IsLog x []
  unfolding Ascending AllTo
  empty-IsLog = record { ascending = tt; past = tt }

  InOrder-le :
      (start : ℕ) (cs : List Call) (c : Call) (t : ℕ)
      → InOrder start (cs ++ c ∷ [])
      → c.time ≡ t
      → start ≤ t
  InOrder-le start [] c t (later o os) e = omega arith
  InOrder-le start (d ∷ cs) c t (later o os) e = omega (arith, InOrder-le d.time cs c t os e)

  still-granted :
      (k : Text) (t : ℕ) (cs : List Call) (m : Limiter)
      → AllOver w t cs
      → still w t (granted limit_of w k cs m) ≡ 0
  unfolding still count_where granted AllOver
  still-granted k t [] m h = refl
  still-granted k t (c ∷ cs) m h =
      ground (arith, still-granted k t cs (allow c.key (limit_of c.key) w c.time m).1 h.1)

  -- The log stays a log, and counts what was let through.
  deque-counts :
      (k : Text) (limit t start : ℕ) (es : Events) (cs : List Call) (c : Call)
      → InOrder start (cs ++ c ∷ [])
      → c.time ≡ t
      → IsLog start es
      → IsLog t (deque_after w k limit es cs)
        × (still w t (deque_after w k limit es cs)
            ≡ still w t es + still w t (admitted w k limit es cs))
  unfolding deque_after admitted
  deque-counts k limit t start es [] c (later o os) e l = (
    record { ascending = l.ascending; past = AllTo_mono start t es l.past (omega arith) },
    ground (arith, still_none t),
  )
  deque-counts k limit t start es (d ∷ cs) c (later o os) e l =
      let r = admit limit w d.time es in
      elim (Bool-cases (text_eq d.key k)) [
        | inl a ↦
            let ih =
              deque-counts k limit t d.time r.1 cs c os e
                (admit-IsLog w limit start d.time es l o) in
            rw a (
              ih.0,
              omega (
                arith,
                ih.1,
                still-admit w limit d.time t es (admitted w k limit r.1 cs)
                    (InOrder-le d.time cs c t os e),
              ),
            )
        | inr a ↦ rw a (
            deque-counts k limit t d.time es cs c os e
              (record { ascending = l.ascending; past = AllTo_mono start d.time es l.past o }))
      ]

  -- When the calls come in the order of the clock and the limiter starts empty, a call is let through
  -- exactly if fewer earlier calls on its key than the limit were let through and are still younger
  -- than the window.
  pub allow-eq-reference :
      (start : ℕ) (cs : List Call) (c : Call)
      → InOrder start (cs ++ c ∷ [])
      → (allow c.key (limit_of c.key) w c.time (run limit_of w cs [])).0
        ≡ ltb (still w c.time (granted limit_of w c.key cs [])) (limit_of c.key)
  unfolding allow events_of
  allow-eq-reference start cs c o =
      let n = deque-counts c.key (limit_of c.key) c.time start [] cs c o refl empty-IsLog in
      rw (events_of-run limit_of w c.key cs []) (
        admit-decides (limit_of c.key) w c.time (deque_after w c.key (limit_of c.key) [] cs)
          n.0.ascending
        ∙ ap (λ m. ltb m (limit_of c.key))
            (n.1
              ∙ rw (granted-eq-admitted limit_of w c.key cs []) (omega (arith, still_none c.time))))

  -- Once every earlier call is as old as the window, a call on a key with a positive limit is let
  -- through, however many calls were refused, when the calls come in the order of the clock and the
  -- limiter starts empty.
  pub allow-recovers :
      (start : ℕ) (cs : List Call) (c : Call)
      → InOrder start (cs ++ c ∷ [])
      → AllOver w c.time cs
      → 0 < limit_of c.key
      → (allow c.key (limit_of c.key) w c.time (run limit_of w cs [])).0 ≡ true
  allow-recovers start cs c o over pos =
      ground (arith, allow-eq-reference start cs c o, still-granted c.key c.time cs [] over)
