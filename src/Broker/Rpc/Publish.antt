-- ===== src/Broker/Rpc/Publish.antt =====
-- What `pub` does to the workers of a queue.
use mathlib.Core.List.{append_assoc, append-nil}
use ijson.Prelude.{
  ℕ, ◌≡◌, refl, ap, sym, ◌∙◌, ◌||◌, Bool, Bool-cases, inl, inr, true, false, List, [], ◌∷◌, ◌++◌,
  Bytes, ◌==◌, if◌then◌else◌, arith,
}
use ijson.Broker.{
  Connect, Server, ok, M, store, write_mode_on, ◌>>=◌, ◌>>◌, connect, update, skip, and_then,
}
use ijson.Broker.Queues.{is_waiting_job}
use ijson.Broker.Request.{after_job}
use ijson.Broker.Rpc.{push_message, pub_loop, publish_one}
use ijson.Broker.Changed.{
  Changed, if-same, polled, wanted, updated_lem, Changed-none, Changed-as, Changed-then,
  write_mode_on_lem, if-true, if-false,
}

-- What `pub` does to a worker: one that waits for a job is given the message as its job, one without
-- ids that does not wait is given it for later, any other is left alone.
abbrev pub noted : Bytes → Connect → Connect
noted message k = record k { direct_message = k.direct_message ++ message ∷ [] }

abbrev pub published : Bytes → Connect → Connect
published message k =
    if is_waiting_job k.status
    then polled (noted message (record k { status = after_job k }))
    else if k.noid
    then noted message k
    else k

-- The loop `m` is asked to set the mode of a worker that is given a job, if it is open and is not
-- polled for writing yet.
abbrev pub wanted_for : ℕ → ℕ → Connect → List ℕ
wanted_for m w k = if is_waiting_job k.status then wanted m w k else []

abbrev pub Queues : ℕ → Server → Server → Type 0
Queues w s t = (m : ℕ) → t.to_send m ≡ s.to_send m ++ wanted_for m w (s.connects w)

publish_one-waiting :
    (message : Bytes) (w : ℕ) (s : Server)
    → (t : Server) × ((do
      update w (λ k. record k { status = after_job k })
      push_message w message
      write_mode_on w)
          s
        ≡ ok tt t)
      × Changed w (λ k. polled (noted message (record k { status = after_job k }))) s t
      × ((m : ℕ) → t.to_send m ≡ s.to_send m ++ wanted m w (s.connects w))
unfolding ◌>>◌ update
publish_one-waiting message w s =
    let f = λ (k : Connect). record k { status = after_job k } in
    let a = record s { connects = store s.connects w (f (s.connects w)) } in
    let b = record a { connects = store a.connects w (noted message (a.connects w)) } in
    let (t, p, c, q) = write_mode_on_lem w b in
    let same : b.connects w ≡ noted message (f (s.connects w)) =
      if-same w _ _ ∙ ap (noted message) (if-same w _ _) in
    (
      t,
      p,
      Changed-then w (λ k. noted message (f k)) polled s b t
          (Changed-then w f (noted message) s a b (updated_lem w f s)
            (updated_lem w (noted message) a))
          c,
      λ m. q m ∙ ap (λ k. s.to_send m ++ wanted m w k) same,
    )

nothing_wanted : (w : ℕ) (s : Server) → is_waiting_job (s.connects w).status ≡ false → Queues w s s
nothing_wanted w s e m = rw e (sym (append-nil (s.to_send m)))

publish_one_lem :
    (message : Bytes) (w : ℕ) (s : Server)
    → (t : Server) × (publish_one message w s ≡ ok tt t)
      × Changed w (published message) s t
      × Queues w s t
unfolding publish_one ◌>>=◌ connect update skip
publish_one_lem message w s = elim (Bool-cases (is_waiting_job (s.connects w).status)) [
  | inl e ↦
      (let (t, p, c, q) = publish_one-waiting message w s in
        (t, rw e p, Changed-as w _ (published message) s t c (rw e refl), λ m. rw e (q m)))
  | inr e ↦ elim (Bool-cases (s.connects w).noid) [
    | inl i ↦ (
      record s { connects = store s.connects w (noted message (s.connects w)) },
      rw e (ap (λ (m : M (Unit {0})). m s) (if-true (s.connects w).noid _ _ i)),
      Changed-as w (noted message) (published message) s _ (updated_lem w (noted message) s)
          (rw e (sym (if-true (s.connects w).noid _ _ i))),
      nothing_wanted w s e,
    )
    | inr i ↦ (
      s,
      rw e (ap (λ (m : M (Unit {0})). m s) (if-false (s.connects w).noid _ _ i)),
      Changed-none w (published message) s (rw e (sym (if-false (s.connects w).noid _ _ i))),
      nothing_wanted w s e,
    )
  ]
]

abbrev pub among : ℕ → List ℕ → Bool
among d [] = false
among d (w ∷ ws) = d == w || among d ws

-- No worker stands in the list twice.
abbrev pub IsDistinct : List ℕ → Type 0
IsDistinct [] = Unit {0}
IsDistinct (w ∷ ws) = (among w ws ≡ false) × IsDistinct ws

-- What the loop `m` is asked for by all the workers of a list.
abbrev pub all_wanted : (ℕ → Connect) → ℕ → List ℕ → List ℕ
all_wanted f m [] = []
all_wanted f m (w ∷ ws) = wanted_for m w (f w) ++ all_wanted f m ws

all_wanted-same :
    (f g : ℕ → Connect) (m : ℕ) (ws : List ℕ)
    → ((d : ℕ) → among d ws ≡ true → g d ≡ f d)
    → all_wanted g m ws ≡ all_wanted f m ws
all_wanted-same f g m [] h = refl
all_wanted-same f g m (w ∷ ws) h =
    ap (λ k. wanted_for m w k ++ all_wanted g m ws) (h w (ground arith))
    ∙ ap (λ x. wanted_for m w (f w) ++ x)
        (all_wanted-same f g m ws (λ d e. h d (ground (arith, e))))

pub record Published (message : Bytes) (ws : List ℕ) (s t : Server) : Type 0 where
  pub connects :
      (d : ℕ)
      → t.connects d ≡ (if among d ws then published message (s.connects d) else s.connects d)
  pub waiting : t.wait_response ≡ s.wait_response
  pub lines : t.queue_list ≡ s.queue_list
  pub queues : (m : ℕ) → t.to_send m ≡ s.to_send m ++ all_wanted s.connects m ws

apart : (d w : ℕ) (ws : List ℕ) → among w ws ≡ false → among d ws ≡ true → (d == w) ≡ false
apart d w ws n i = elim (Bool-cases (d == w)) [
  | inl e ↦
      let same : d ≡ w = ground (arith, e) in
      let there = sym (ap (λ x. among x ws) same) ∙ i in
      let clash : ⊥ = ground (arith, there, n) in elim clash [ ]
  | inr e ↦ e
]

Published-cons :
    (message : Bytes) (w : ℕ) (ws : List ℕ) (s t u : Server)
    → among w ws ≡ false
    → Changed w (published message) s t
    → Queues w s t
    → Published message ws t u
    → Published message (w ∷ ws) s u
Published-cons message w ws s t u n h q k = record {
  connects = λ d. elim (Bool-cases (d == w)) [
    | inl e ↦
        (let same : d ≡ w = ground (arith, e) in
          k.connects d
          ∙ if-false (among d ws) _ _ (ap (λ x. among x ws) same ∙ n)
          ∙ h.connects d
          ∙ if-true (d == w) _ _ e
          ∙ ap (λ x. published message (s.connects x)) (sym same)
          ∙ sym (if-true (d == w || among d ws) _ _ (ap (λ b. b || among d ws) e)))
    | inr e ↦
        k.connects d
        ∙ ap (λ x. if among d ws then published message x else x)
            (h.connects d ∙ if-false (d == w) _ _ e)
        ∙ ap (λ b. if b || among d ws then published message (s.connects d) else s.connects d)
            (sym e)
  ];
  waiting = k.waiting ∙ h.waiting;
  lines = k.lines ∙ h.lines;
  queues = λ m.
      k.queues m
      ∙ ap (λ x. t.to_send m ++ x)
          (all_wanted-same s.connects t.connects m ws
            (λ d i. h.connects d ∙ if-false (d == w) _ _ (apart d w ws n i)))
      ∙ ap (λ x. x ++ all_wanted s.connects m ws) (q m)
      ∙ append_assoc (s.to_send m) (wanted_for m w (s.connects w)) (all_wanted s.connects m ws);
}

-- For workers that stand in the list once, the loop of `pub` returns without an exception; each
-- worker of the list that waits for a job has the message as its job, and has its bit for writing
-- set if it is open, each other one without ids has the message for later, and no other
-- connection, no queue line and no waiting client is changed; to the list of the connections whose
-- mode a loop is to set there come, in their order, those of its workers that wait for a job, are
-- open and had the bit not set, and no other.
pub pub_loop_lem :
    (message : Bytes) (ws : List ℕ) (s : Server)
    → IsDistinct ws
    → (t : Server) × (pub_loop message ws s ≡ ok tt t) × Published message ws s t
unfolding pub_loop publish_one ◌>>=◌ ◌>>◌ skip connect
pub_loop_lem message [] s h = (
  s,
  refl,
  record {
    connects = λ d. refl;
    waiting = refl;
    lines = refl;
    queues = λ m. sym (append-nil (s.to_send m));
  },
)
pub_loop_lem message (w ∷ ws) s h =
    let (t, p, c, q) = publish_one_lem message w s in
    let (u, r, k) = pub_loop_lem message ws t h.1 in
    (
      u,
      ap (λ r. and_then r (λ _. pub_loop message ws)) p ∙ r,
      Published-cons message w ws s t u h.0 c q k,
    )
