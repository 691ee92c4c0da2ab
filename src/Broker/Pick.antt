-- ===== src/Broker/Pick.antt =====
-- Which worker `client_request` takes from a queue.
use ijson.Prelude.{
  ℕ, ◌+◌, ◌≡◌, refl, sym, subst, ◌∙◌, ap, inl, inr, Bool, true, false, not, ◌&&◌, List, [], ◌∷◌,
  Bytes, if◌then◌else◌, Bool-cases, arith, Option, none, some, ◌==◌, ◌<◌, ◌≤◌,
}
use ijson.Broker.{
  busy, Connect, Server, Run, ok, unlink, store, and_then, ◌>>=◌, connect, pure, ◌>>◌, update,
}
use ijson.Broker.Links.{unlinked, unlink-linked}
use ijson.Broker.Queues.{pick_worker, passes_over, is_waiting_job}

-- What the loop reads of a worker.
abbrev pub is_ready : Connect → Bool
is_ready k = not k.closed && is_waiting_job k.status

abbrev pub Picks : Type 0
Picks = List ℕ × Option ℕ

abbrev pub kept_too : ℕ → Picks → Picks
kept_too w (kept, found) = (w ∷ kept, found)

-- The choice that the loop is to make: the first ready worker that the request asks for; the
-- workers that it does not ask for stay, the others before the choice are dropped.
unfoldable pub choice : (ℕ → Connect) → Bytes → List ℕ → Picks
choice f required [] = ([], none)
choice f required (w ∷ ws) =
    let rest = choice f required ws in
    if passes_over required (f w).connection_id
    then kept_too w rest
    else if is_ready (f w)
    then (ws, some w)
    else rest

-- Two states agree on all that the loop reads.
abbrev pub Agree : (ℕ → Connect) → (ℕ → Connect) → Type 0
Agree f g =
    (c : ℕ)
    → ((g c).connection_id ≡ (f c).connection_id)
      × ((g c).closed ≡ (f c).closed)
      × ((g c).status ≡ (f c).status)

pub choice-Agree :
    (f g : ℕ → Connect) (required : Bytes) (ws : List ℕ)
    → Agree f g
    → choice g required ws ≡ choice f required ws
unfolding choice
choice-Agree f g required [] h = refl
choice-Agree f g required (w ∷ ws) h =
    rw ((h w).0, (h w).1, (h w).2, choice-Agree f g required ws h)

-- Every worker of the list has a link for each time that it stands in the list.
abbrev pub times : ℕ → List ℕ → ℕ
times c [] = 0
times c (x ∷ xs) = (if x == c then 1 else 0) + times c xs

abbrev pub Linked : (ℕ → Connect) → List ℕ → Type 0
Linked f ws = (c : ℕ) → times c ws ≤ (f c).link

-- What the loop leaves of the connections: the one that is found is busy, and no other status,
-- id or socket is touched.
abbrev pub Chosen : (ℕ → Connect) → Option ℕ → (ℕ → Connect) → Type 0
Chosen f found g =
    (c : ℕ)
    → ((g c).connection_id ≡ (f c).connection_id)
      × ((g c).closed ≡ (f c).closed)
      × ((g c).status
          ≡ elim found [ none ↦ (f c).status | some w ↦ if c == w then busy else (f c).status ])

-- A connection has lost a link for each of its places that are gone.
abbrev pub Unlinks : Server → List ℕ → List ℕ → Server → Type 0
Unlinks s ws kept t =
    (c : ℕ) → (t.connects c).link + times c ws ≡ (s.connects c).link + times c kept

pub record Picked (s : Server) (required : Bytes) (ws : List ℕ) : Type 0 where
  pub final : Server
  pub returns : pick_worker required ws s ≡ ok (choice s.connects required ws) final
  pub chosen : Chosen s.connects (choice s.connects required ws).1 final.connects
  pub lines : final.queue_list ≡ s.queue_list
  pub waiting : final.wait_response ≡ s.wait_response
  pub links : Unlinks s ws (choice s.connects required ws).0 final

-- The worker that is found was asked for, open, and waiting for a job.
pub choice-ready :
    (f : ℕ → Connect) (required : Bytes) (ws : List ℕ) (w : ℕ)
    → (choice f required ws).1 ≡ some w
    → (passes_over required (f w).connection_id ≡ false)
      × ((f w).closed ≡ false)
      × (is_waiting_job (f w).status ≡ true)
unfolding choice
choice-ready f required [] w e = cc
choice-ready f required (v ∷ ws) w e = ground (arith, choice-ready f required ws w)

abbrev also_kept : ℕ → Run Picks → Run Picks
also_kept w r = and_then r (λ x. ok (kept_too w x))

pick-pass :
    (required : Bytes) (w : ℕ) (ws : List ℕ) (s : Server)
    → passes_over required (s.connects w).connection_id ≡ true
    → pick_worker required (w ∷ ws) s ≡ also_kept w (pick_worker required ws s)
unfolding pick_worker ◌>>=◌ connect pure
pick-pass required w ws s e = rw e

abbrev taken : ℕ → Server → Server
taken w s = record s { connects = store s.connects w (record (s.connects w) { status = busy }) }

pick-take :
    (required : Bytes) (w : ℕ) (ws : List ℕ) (s : Server)
    → passes_over required (s.connects w).connection_id ≡ false
    → is_ready (s.connects w) ≡ true
    → pick_worker required (w ∷ ws) s ≡ and_then (unlink w s) (λ _ s'. ok (ws, some w) (taken w s'))
unfolding pick_worker ◌>>=◌ connect ◌>>◌ update pure
pick-take required w ws s e r = rw (e, r)

pick-drop :
    (required : Bytes) (w : ℕ) (ws : List ℕ) (s : Server)
    → passes_over required (s.connects w).connection_id ≡ false
    → is_ready (s.connects w) ≡ false
    → pick_worker required (w ∷ ws) s ≡ and_then (unlink w s) (λ _. pick_worker required ws)
unfolding pick_worker ◌>>=◌ connect ◌>>◌
pick-drop required w ws s e r = rw (e, r)

pub unlinked-Agree : (w : ℕ) (s : Server) → Agree s.connects (unlinked w s).connects
unlinked-Agree w s c = ground arith

pub unlinked-Linked :
    (w : ℕ) (ws : List ℕ) (s : Server)
    → Linked s.connects (w ∷ ws)
    → Linked (unlinked w s).connects ws
unlinked-Linked w ws s h c = ground (arith, h c)

pub has_link : (f : ℕ → Connect) (w : ℕ) (ws : List ℕ) → Linked f (w ∷ ws) → 0 < (f w).link
has_link f w ws h = ground (arith, h w)

module _ (f : ℕ → Connect) (required : Bytes) (w : ℕ) (ws : List ℕ) where
  choice-pass :
      passes_over required (f w).connection_id ≡ true
      → choice f required (w ∷ ws) ≡ kept_too w (choice f required ws)
  unfolding choice
  choice-pass e = rw e

  choice-take :
      passes_over required (f w).connection_id ≡ false
      → is_ready (f w) ≡ true
      → choice f required (w ∷ ws) ≡ (ws, some w)
  unfolding choice
  choice-take e r = rw (e, r)

  choice-drop :
      passes_over required (f w).connection_id ≡ false
      → is_ready (f w) ≡ false
      → choice f required (w ∷ ws) ≡ choice f required ws
  unfolding choice
  choice-drop e r = rw (e, r)

pub Linked-tail : (f : ℕ → Connect) (w : ℕ) (ws : List ℕ) → Linked f (w ∷ ws) → Linked f ws
Linked-tail f w ws h c = ground (arith, h c)

-- The loop's return at a state in which the choice is `x`.
abbrev Finishes : Server → Bytes → List ℕ → Picks → Server → Type 0
Finishes s required ws x t =
    (pick_worker required ws s ≡ ok x t)
    × Chosen s.connects x.1 t.connects
    × (t.queue_list ≡ s.queue_list)
    × (t.wait_response ≡ s.wait_response)
    × Unlinks s ws x.0 t

picked :
    (s : Server) (required : Bytes) (ws : List ℕ) (x : Picks) (t : Server)
    → choice s.connects required ws ≡ x
    → Finishes s required ws x t
    → Picked s required ws
picked s required ws x t e h =
    let k = subst (λ y. Finishes s required ws y t) (sym e) h in
    record { final = t; returns = k.0; chosen = k.1; lines = k.2; waiting = k.3; links = k.4 }

taken-Chosen : (w : ℕ) (s : Server) → Chosen s.connects (some w) (taken w (unlinked w s)).connects
taken-Chosen w s c = ground arith

-- The links after a worker is taken, and after one is dropped before the others.
taken-Unlinks :
    (w : ℕ) (ws : List ℕ) (s : Server)
    → 0 < (s.connects w).link
    → Unlinks s (w ∷ ws) ws (taken w (unlinked w s))
taken-Unlinks w ws s h c = ground (arith, h)

dropped-Unlinks :
    (w : ℕ) (ws kept : List ℕ) (s t : Server)
    → 0 < (s.connects w).link
    → Unlinks (unlinked w s) ws kept t
    → Unlinks s (w ∷ ws) kept t
dropped-Unlinks w ws kept s t h k c = ground (arith, h, k c)

pub Chosen-Agree :
    (f g h : ℕ → Connect) (found : Option ℕ) → Agree f g → Chosen g found h → Chosen f found h
Chosen-Agree f g h none a k c = ground (arith, a c, k c)
Chosen-Agree f g h (some w) a k c = ground (arith, a c, k c)

-- For workers that have a link for each time that they stand in the list, the loop of
-- `client_request` over the list takes without an exception the first worker that the request asks
-- for and that is open and waits for a job; workers not asked for and those behind the one taken
-- stay in their order, the others are dropped; the one taken is busy, and no other status, id or
-- socket, no queue line and no waiting client is changed.
pub pick_worker_lem :
    (s : Server) (required : Bytes) (ws : List ℕ) → Linked s.connects ws → Picked s required ws
unfolding pure
pick_worker_lem s required [] h = record {
  final = s;
  returns = unfold pick_worker choice in refl;
  chosen = unfold choice in λ c. (refl, refl, refl);
  lines = refl;
  waiting = refl;
  links = unfold choice in λ c. refl;
}
pick_worker_lem s required (w ∷ ws) h =
    let f = s.connects in
    let gone = unlink-linked w s (has_link f w ws h) in
    elim (Bool-cases (passes_over required (f w).connection_id)) [
      | inl p ↦
          let r = pick_worker_lem s required ws (Linked-tail f w ws h) in
          picked s required (w ∷ ws) (kept_too w (choice f required ws)) r.final
            (choice-pass f required w ws p)
            (
              pick-pass required w ws s p ∙ ap (also_kept w) r.returns,
              r.chosen,
              r.lines,
              r.waiting,
              λ c. omega (arith, r.links c),
            )
      | inr p ↦ elim (Bool-cases (is_ready (f w))) [
        | inl r ↦
            picked s required (w ∷ ws) (ws, some w) (taken w (unlinked w s))
              (choice-take f required w ws p r)
              (
                pick-take required w ws s p r
                    ∙ ap (λ x. and_then x (λ _ s'. ok (ws, some w) (taken w s'))) gone,
                taken-Chosen w s,
                refl,
                refl,
                taken-Unlinks w ws s (has_link f w ws h),
              )
        | inr r ↦
            let t = unlinked w s in
            let k = pick_worker_lem t required ws (unlinked-Linked w ws s h) in
            let same = choice-Agree f t.connects required ws (unlinked-Agree w s) in
            picked s required (w ∷ ws) (choice t.connects required ws) k.final
              (choice-drop f required w ws p r ∙ sym same)
              (
                pick-drop required w ws s p r
                    ∙ ap (λ x. and_then x (λ _. pick_worker required ws)) gone
                    ∙ k.returns,
                Chosen-Agree f t.connects k.final.connects (choice t.connects required ws).1
                    (unlinked-Agree w s) k.chosen,
                k.lines,
                k.waiting,
                dropped-Unlinks w ws _ s k.final (has_link f w ws h) k.links,
              )
      ]
    ]
