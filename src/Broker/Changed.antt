-- ===== src/Broker/Changed.antt =====
-- Handlers that change one connection, and loops that change each of a list in a way that a second time
-- does not add to.
use mathlib.Core.List.{append-nil}
use ijson.Prelude.{
  ℕ, ◌≡◌, refl, ap, sym, ◌∙◌, ◌||◌, Bool, Bool-cases, inl, inr, true, false, not, ◌&&◌, List, [],
  ◌∷◌, ◌++◌, ◌==◌, if◌then◌else◌, arith,
}
use ijson.Broker.{
  Connect, Server, ok, store, append_at, write_mode_on, ◌>>=◌, ◌>>◌, connect, update, modify, skip,
}

-- One connection is changed by `f`; no queue line and no waiting client is.
pub record Changed (w : ℕ) (f : Connect → Connect) (s t : Server) : Type 0 where
  pub connects : (d : ℕ) → t.connects d ≡ (if d == w then f (s.connects w) else s.connects d)
  pub waiting : t.wait_response ≡ s.wait_response
  pub lines : t.queue_list ≡ s.queue_list
  pub threads : t.threads ≡ s.threads

abbrev pub polled : Connect → Connect
polled k = if k.closed || k.writing then k else record k { writing = true }

polled-new :
    (k : Connect) → (k.closed || k.writing) ≡ false → record k { writing = true } ≡ polled k
polled-new k e = rw e refl

polled-same : (k : Connect) → (k.closed || k.writing) ≡ true → k ≡ polled k
polled-same k e = rw e refl

pub if-true : {A : Type 0} (b : Bool) (x y : A) → b ≡ true → (if b then x else y) ≡ x
if-true b x y e = rw e refl

pub if-false : {A : Type 0} (b : Bool) (x y : A) → b ≡ false → (if b then x else y) ≡ y
if-false b x y e = rw e refl

pub if-same : {A : Type 0} (w : ℕ) (x y : A) → (if w == w then x else y) ≡ x
if-same w x y = ground arith

pub if-agree :
    {A : Type 0} (b : Bool) (x x' y y' : A)
    → (b ≡ true → x ≡ x')
    → (b ≡ false → y ≡ y')
    → (if b then x else y) ≡ (if b then x' else y')
if-agree true x x' y y' h k = h refl
if-agree false x x' y y' h k = k refl

unchanged : (w : ℕ) (f : ℕ → Connect) (d : ℕ) → f d ≡ (if d == w then f w else f d)
unchanged w f d = elim (Bool-cases (d == w)) [
  | inl e ↦ rw e (ap f (ground (arith, e)))
  | inr e ↦ rw e refl
]

pub Changed-none :
    (w : ℕ) (f : Connect → Connect) (s : Server) → s.connects w ≡ f (s.connects w) → Changed w f s s
Changed-none w f s e = record {
  connects = λ d. unchanged w s.connects d ∙ ap (λ k. if d == w then k else s.connects d) e;
  waiting = refl;
  lines = refl;
  threads = refl;
}

-- What the loop `m` is asked for, to set the mode of the connection `w`, if that is `k`.
abbrev pub wanted : ℕ → ℕ → Connect → List ℕ
wanted m w k = if not (k.closed || k.writing) && m == k.nloop then w ∷ [] else []

pub write_mode_on_lem :
    (w : ℕ) (s : Server)
    → (t : Server) × (write_mode_on w s ≡ ok tt t)
      × Changed w polled s t
      × ((m : ℕ) → t.to_send m ≡ s.to_send m ++ wanted m w (s.connects w))
unfolding write_mode_on ◌>>=◌ ◌>>◌ connect update modify skip
write_mode_on_lem w s = elim (Bool-cases ((s.connects w).closed || (s.connects w).writing)) [
  | inl e ↦ (
    s,
    rw e refl,
    Changed-none w polled s (polled-same (s.connects w) e),
    λ m. rw e (sym (append-nil (s.to_send m))),
  )
  | inr e ↦
      (let t = record s {
        connects = store s.connects w (record (s.connects w) { writing = true });
        to_send = append_at s.to_send (s.connects w).nloop w;
      } in
        (
          t,
          rw e refl,
          record {
            connects =
                λ d. ap (λ k. if d == w then k else s.connects d) (polled-new (s.connects w) e);
            waiting = refl;
            lines = refl;
            threads = refl;
          },
          λ m. rw e (sent_to m),
        ))
]
  where
    sent_to :
        (m : ℕ)
        → append_at s.to_send (s.connects w).nloop w m
          ≡ s.to_send m ++ (if m == (s.connects w).nloop then w ∷ [] else [])
    sent_to m = elim (Bool-cases (m == (s.connects w).nloop)) [
      | inl y ↦
          let same : (s.connects w).nloop ≡ m = ground (arith, y) in
          rw y (ap (λ n. s.to_send n ++ w ∷ []) same)
      | inr y ↦ rw y (sym (append-nil (s.to_send m)))
    ]

pub updated_lem :
    (w : ℕ) (f : Connect → Connect) (s : Server)
    → Changed w f s (record s { connects = store s.connects w (f (s.connects w)) })
updated_lem w f s = record { connects = λ d. refl; waiting = refl; lines = refl; threads = refl }

pub Changed-as :
    (w : ℕ) (f g : Connect → Connect) (s t : Server)
    → Changed w f s t
    → f (s.connects w) ≡ g (s.connects w)
    → Changed w g s t
Changed-as w f g s t h e = record {
  connects = λ d. h.connects d ∙ ap (λ k. if d == w then k else s.connects d) e;
  waiting = h.waiting;
  lines = h.lines;
  threads = h.threads;
}

pub Changed-then :
    (w : ℕ) (f g : Connect → Connect) (s t u : Server)
    → Changed w f s t
    → Changed w g t u
    → Changed w (λ k. g (f k)) s u
Changed-then w f g s t u h k = record {
  connects = λ d.
      k.connects d
      ∙ if-agree (d == w) _ _ _ _ (λ e. ap g (h.connects w ∙ if-same w _ _))
          (λ e. h.connects d ∙ rw e refl);
  waiting = k.waiting ∙ h.waiting;
  lines = k.lines ∙ h.lines;
  threads = k.threads ∙ h.threads;
}

-- A change that is made once more, or to one that is not listed.
module _ {A : Type 0} (g : A → A) where
  pub once_more :
      ((x : A) → g (g x) ≡ g x) → (b : Bool) (x y : A) → y ≡ g x → (if b then g y else y) ≡ g x
  once_more idem true x y e = ap g e ∙ idem x
  once_more idem false x y e = e

  pub same_for :
      (b c : Bool) (x y : A) → y ≡ x → c ≡ b → (if b then g y else y) ≡ (if c then g x else x)
  same_for b c x y e f = ap (λ z. if b then g z else z) e ∙ ap (λ z. if z then g x else x) (sym f)
