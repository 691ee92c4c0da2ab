-- ===== src/Broker/Entries/Collision.antt =====
-- `client_request` of src/server.cpp and the ids in use.
use ijson.Prelude.{
  ℕ, ◌≡◌, refl, ◌∙◌, ap, sym, inl, inr, Bool-cases, Bool, true, false, not, Bytes, if◌then◌else◌,
  Option, none, some, arith, subst,
}
use ijson.Prelude.Int.{pos}
use ijson.Slice.{equal}
use ijson.Slice.Compare.{equal_iff}
use ijson.Broker.{
  net, client_wait_result, Server, Run, fault, hang, M, pure, gets, modify, connect, update, link,
  set_status, find_waiting, put_waiting, and_then, ◌>>=◌, ◌>>◌,
}
use ijson.Broker.Waiting.{Waiting, find-put}
use ijson.Broker.Queues.{loop_order}
use ijson.Broker.Request.{is_some, send_id, dispatch_id, dispatch, client_request}
use ijson.Broker.Entries.{Stays, Still, Still-connect, Still-gets, still_rules}
use ijson.Broker.Entries.Requests.{
  find_worker-Still, find_id-Still, give_back-Still, send_async-Still, send_noid-Still,
  enqueue-Still, refuse-Still, refuse,
}

-- The client `d` is entered under the id after a return and after an exception.
abbrev pub Entered : {A : Type 0} → Bytes → ℕ → Run A → Type 0
Entered id d (Run.ok a t) = find_waiting id t.wait_response ≡ some d
Entered id d (Run.thrown e t) = find_waiting id t.wait_response ≡ some d
Entered id d fault = Unit {0}
Entered id d hang = Unit {0}

module _ (id : Bytes) (d : ℕ) where
  -- From a map `w` on.
  record From (w : Waiting) {A : Type 0} (m : M A) : Type 0 where
    pub at : (s : Server) → s.wait_response ≡ w → Entered id d (m s)

  Stays-Entered :
      {A : Type 0} (w : Waiting) (r : Run A)
      → find_waiting id w ≡ some d
      → Stays w r
      → Entered id d r
  Stays-Entered w (Run.ok a t) e h = ap (find_waiting id) h ∙ e
  Stays-Entered w (Run.thrown x t) e h = ap (find_waiting id) h ∙ e
  Stays-Entered w fault e h = tt
  Stays-Entered w hang e h = tt

  module _ (w : Waiting) (e : find_waiting id w ≡ some d) where
    From-Still : {A : Type 0} (m : M A) → Still m → From w m
    From-Still m h = record {
      at = λ s i. Stays-Entered s.wait_response (m s) (ap (find_waiting id) i ∙ e) (h.at s);
    }

    From-next :
        {A B : Type 0} (m : M A) (f : A → M B)
        → Still m
        → ((a : A) → From w (f a))
        → From w (m >>= f)
    unfolding ◌>>=◌
    From-next {A = A} {B = B} m f h k = record { at = λ s i. after s i (m s) (h.at s) }
      where
        after :
            (s : Server)
            → s.wait_response ≡ w
            → (r : Run A) → Stays s.wait_response r
            → Entered id d (and_then r f)
        after s i (Run.ok a t) h = (k a).at t (h ∙ i)
        after s i (Run.thrown x t) h = ap (find_waiting id) (h ∙ i) ∙ e
        after s i fault h = tt
        after s i hang h = tt

    From-then : {A B : Type 0} (m : M A) (n : M B) → Still m → From w n → From w (m >> n)
    unfolding ◌>>◌ ◌>>=◌
    From-then m n h k = From-next m (λ _. n) h (λ _. k)

    From-if :
        {A : Type 0} (b : Bool) (m n : M A) → From w m → From w n → From w (if b then m else n)
    From-if true m n h k = h
    From-if false m n h k = k

    From-option :
        {A B : Type 0} (o : Option B) (m : M A) (f : B → M A)
        → From w m
        → ((b : B) → From w (f b))
        → From w (elim o as (λ _. M A) [ none ↦ m | some b ↦ f b ])
    From-option none m f h k = h
    From-option (some b) m f h k = k b

  -- A new entry under an id that is not in use.
  find-new :
      (j : Bytes) (c : ℕ) (w : Waiting)
      → is_some (find_waiting j w) ≡ false
      → find_waiting id w ≡ some d
      → find_waiting id (put_waiting j c w) ≡ some d
  find-new j c w n e = elim (Bool-cases (equal id j)) [
    | inl y ↦
        let same : id ≡ j = (equal_iff id j).0 y in
        let there : is_some (find_waiting j w) ≡ true =
          ap is_some (ap (λ i. find_waiting i w) (sym same) ∙ e) in
        let clash : ⊥ = ground (arith, there, n) in elim clash [ ]
    | inr y ↦ find-put id j c w ∙ (rw y e)
  ]

  put-From :
      (j : Bytes) (c worker : ℕ) (w : Waiting)
      → is_some (find_waiting j w) ≡ false
      → find_waiting id w ≡ some d
      → From w (do
        modify (λ s. record s { wait_response = put_waiting j c s.wait_response })
        link c
        set_status c client_wait_result
        set_status worker net
        pure (pos 0))
  unfolding ◌>>◌ modify link update pure
  put-From j c worker w n e = record {
    at = λ s i. ap (λ v. find_waiting id (put_waiting j c v)) i ∙ find-new j c w n e;
  }

  send_id-Entered :
      (name : Bytes) (client worker : ℕ) (s : Server)
      → is_some (find_waiting (s.connects client).id s.wait_response) ≡ false
      → find_waiting id s.wait_response ≡ some d
      → Entered id d (send_id name client worker s)
  unfolding send_id ◌>>=◌ connect
  send_id-Entered name client worker s n e =
      let c = s.connects client in
      let w = s.wait_response in
      let k = From-then w e _ _ (search still_rules depth 24) (
        From-then w e _ _ (search still_rules) (
          From-then w e _ _ (search still_rules) (
            From-then w e _ _ (search still_rules)
              (From-then w e _ _ (search still_rules) (put-From c.id client worker w n e))))) in
      k.at s refl

  -- The check of the id, and the job.
  checked-From :
      (q : ℕ) (name : Bytes) (client worker : ℕ) (w : Waiting)
      → find_waiting id w ≡ some d
      → From w (do
        c ← connect client
        taken ← gets (λ s. is_some (find_waiting c.id s.wait_response))
        if taken then refuse q client worker else send_id name client worker)
  unfolding ◌>>=◌ connect gets
  checked-From q name client worker w e = record {
    at = λ s i.
        let here = ap (find_waiting id) i ∙ e in
        let goes = λ (b : Bool). if b then refuse q client worker else send_id name client worker in
        elim (Bool-cases (is_some (find_waiting (s.connects client).id s.wait_response))) [
          | inl y ↦
              subst (λ b. Entered id d (goes b s)) (sym y)
                ((From-Still w e _ (refuse-Still q client worker)).at s i)
          | inr y ↦
              subst (λ b. Entered id d (goes b s)) (sym y)
                (send_id-Entered name client worker s y here)
        ];
  }

  dispatch_id-From :
      (q : ℕ) (name : Bytes) (client worker : ℕ) (w : Waiting)
      → find_waiting id w ≡ some d
      → From w (dispatch_id q name client worker)
  unfolding dispatch_id
  dispatch_id-From q name client worker w e = From-next w e _ _ (find_id-Still client) (λ found.
      From-if w e (not found) _ _
        (From-Still w e _ (search (still_rules, give_back-Still) depth 16))
        (checked-From q name client worker w e))

  dispatch-From :
      (q : ℕ) (name : Bytes) (client worker : ℕ) (w : Waiting)
      → find_waiting id w ≡ some d
      → From w (dispatch q name client worker)
  unfolding dispatch
  dispatch-From q name client worker w e = From-next w e _ _ (Still-connect client) (λ c.
      From-next w e _ _ (Still-connect worker) (λ v.
        From-if w e c.no_response _ _ (From-Still w e _ (send_async-Still name client worker)) (
          From-if w e v.noid _ _ (From-Still w e _ (send_noid-Still name client worker))
            (dispatch_id-From q name client worker w e))))

  client_request-From :
      (nloop : ℕ) (name : Bytes) (client : ℕ) (w : Waiting)
      → find_waiting id w ≡ some d
      → From w (client_request nloop name client)
  unfolding client_request
  client_request-From nloop name client w e = From-then w e _ _ (search still_rules) (
      From-next w e _ _ (search still_rules) (λ found.
        From-option w e found _ _ (From-Still w e _ (search still_rules)) (λ q.
          From-next w e _ _ (Still-connect client) (λ c. From-next w e _ _ (Still-gets _) (λ n.
            From-next w e _ _ (find_worker-Still q c.required_worker (loop_order nloop n))
              (λ chosen.
                From-option w e chosen _ _ (From-Still w e _ (enqueue-Still nloop q name client))
                  (λ v. dispatch-From q name client v w e)))))))

-- A client that waits for a result under an id is not driven out of its entry by a request: after
-- `client_request`, for any client and any name, on any branch, with a return and with an
-- exception, the client that is entered under the id is the one of before.
pub client_request-Entered :
    (nloop : ℕ) (name : Bytes) (client : ℕ) (id : Bytes) (d : ℕ) (s : Server)
    → find_waiting id s.wait_response ≡ some d
    → Entered id d (client_request nloop name client s)
client_request-Entered nloop name client id d s e =
    (client_request-From id d nloop name client s.wait_response e).at s refl
