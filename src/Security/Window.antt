-- ===== src/Security/Window.antt =====
-- ting_ting/security.py, RateLimiter: how many calls a window lets through.
use biexce_social_network.Prelude.{
  ℕ, suc, Bool, List, [], ◌∷◌, ◌++◌, ◌+◌, ◌&&◌, ◌≡◌, ◌≤◌, ◌<◌, refl, leb, ltb, if◌then◌else◌, arith,
  Bool-cases, inl, inr, count_where, count_where-append,
}
use biexce_social_network.Security.{Text, text_eq}
use biexce_social_network.Security.Limiter.{Events, length, events_of, drop_expired, admit}
use biexce_social_network.Security.Calls.{
  Call, InOrder, later, granted, admitted, granted-eq-admitted,
}

-- The window that ends at `t` and is `w` long.
abbrev inside : ℕ → ℕ → ℕ → Bool
inside w t e = leb e t && ltb t (e + w)

length-snoc : (es : Events) (x : ℕ) → length (es ++ x ∷ []) ≡ suc (length es)
length-snoc [] x = refl
length-snoc (e ∷ es) x = ground (arith, length-snoc es x)

module _ (limit_of : Text → ℕ) (w : ℕ) where
  -- How many of the times lie in the window that ends at `t`.
  pub in_window : ℕ → Events → ℕ
  in_window t = count_where (inside w t)

  in_window-late :
      (t : ℕ) (k : Text) (limit start : ℕ) (es : Events) (cs : List Call)
      → InOrder start cs
      → t < start
      → in_window t (admitted w k limit es cs) ≡ 0
  unfolding in_window count_where admitted
  in_window-late t k limit start es [] o h = refl
  in_window-late t k limit start es (c ∷ cs) (later o os) h =
      let r = admit limit w c.time es in
      ground
        (arith, in_window-late t k limit c.time r.1 cs os, in_window-late t k limit c.time es cs os)

  in_window-drop :
      (t x : ℕ) (es : Events) → x ≤ t → in_window t es ≤ in_window t (drop_expired w x es)
  unfolding in_window count_where drop_expired
  in_window-drop t x [] h = omega arith
  in_window-drop t x (e ∷ es) h = ground (arith, in_window-drop t x es h)

  in_window-length : (t : ℕ) (es : Events) → in_window t es ≤ length es
  unfolding in_window count_where
  in_window-length t [] = omega arith
  in_window-length t (e ∷ es) = ground (arith, in_window-length t es)

  length-drop : (x : ℕ) (es : Events) → length (drop_expired w x es) ≤ length es
  unfolding drop_expired
  length-drop x [] = omega arith
  length-drop x (e ∷ es) = ground (arith, length-drop x es)

  in_window-append :
      (t : ℕ) (xs ys : Events) → in_window t (xs ++ ys) ≡ in_window t xs + in_window t ys
  unfolding in_window
  in_window-append t xs ys = count_where-append (inside w t) xs ys

  length-admit :
      (limit x : ℕ) (es : Events) → length es ≤ limit → length (admit limit w x es).1 ≤ limit
  unfolding admit
  length-admit limit x es h = ground (arith, length-drop x es, length-snoc (drop_expired w x es) x)

  -- Whether admitted or not, a call up to the end of the window hands its share to the deque.
  in_window-admit :
      (t limit x : ℕ) (es rest : Events)
      → x ≤ t
      → in_window t es + in_window t (if (admit limit w x es).0 then x ∷ rest else rest)
        ≤ in_window t (admit limit w x es).1 + in_window t rest
  unfolding admit
  in_window-admit t limit x es rest h =
      let kept = drop_expired w x es in
      ground (
        arith,
        in_window-drop t x es h,
        in_window-append t kept (x ∷ []),
        in_window-append t (x ∷ []) rest,
      )

  -- What the deque and the calls to come put into one window stays below the limit.
  admitted-le-limit :
      (t : ℕ) (k : Text) (limit start : ℕ) (es : Events) (cs : List Call)
      → InOrder start cs
      → length es ≤ limit
      → in_window t es + in_window t (admitted w k limit es cs) ≤ limit
  unfolding admitted
  admitted-le-limit t k limit start es [] o h =
      ground (arith, in_window-length t es, in_window-append t [] [])
  admitted-le-limit t k limit start es (c ∷ cs) (later o os) h =
      let r = admit limit w c.time es in
      elim (Bool-cases (text_eq c.key k)) [
        | inl e ↦ elim (Bool-cases (ltb t c.time)) [
          | inl early ↦ ground (
            arith,
            in_window-length t es,
            in_window-late t k limit c.time es (c ∷ cs) (later (omega arith) os),
          )
          | inr late ↦ ground (
            arith,
            e,
            in_window-admit t limit c.time es (admitted w k limit r.1 cs),
            admitted-le-limit t k limit c.time r.1 cs os,
            length-admit limit c.time es h,
          )
        ]
        | inr e ↦ ground (arith, e, admitted-le-limit t k limit c.time es cs os h)
      ]

  -- In any window as long as the limiter's, no more calls on a key are let through than its limit,
  -- when the calls come in the order of the clock and the limiter starts empty.
  pub granted-le-limit :
      (start : ℕ) (cs : List Call)
      → InOrder start cs
      → (k : Text) (t : ℕ) → in_window t (granted limit_of w k cs []) ≤ limit_of k
  unfolding in_window count_where events_of
  granted-le-limit start cs o k t =
      rw (granted-eq-admitted limit_of w k cs [])
        (omega (arith, admitted-le-limit t k (limit_of k) start [] cs o (omega arith)))
