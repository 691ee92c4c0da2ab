-- ===== src/Broker/FindWorker/Search.antt =====
-- The loop of `client_request` of src/server.cpp over the queues of all loops: `find_worker` of
-- Broker/Queues.antt.
use ijson.Prelude.{
  ℕ, ◌≡◌, refl, sym, ap, ◌∙◌, subst, ◌⊎◌, inl, inr, true, false, List, [], ◌∷◌, ◌++◌, Bytes, Option,
  none, some, get_elem?, arith,
}
use ijson.Broker.{busy, Connect, QueueLine, Server, ok, ◌>>=◌, ◌>>◌, pure}
use ijson.Broker.Queues.{find_worker, pick_worker}
use ijson.Broker.FindWorker.{
  joined, has, Distinct, IsLine, with_workers, written, get_elem?-set, joined-other, line-IsLine,
  set_workers-written, choice-append_none, choice-append_some, choice-finds, Linked-left,
  Linked-rest, Suits,
}
use ijson.Broker.Pick.{
  Chosen-Agree, choice, Agree, Linked, Chosen, Picked, pick_worker_lem, choice-Agree, choice-ready,
}

-- The search returns the choice among the workers of all the queues.
pub record Searched (q : ℕ) (required : Bytes) (l : QueueLine) (rs : List ℕ) (s : Server)
    : Type 0 where
  pub final : Server
  pub returns : find_worker q required rs s ≡ ok (choice s.connects required (joined l rs)).1 final
  pub chosen : Chosen s.connects (choice s.connects required (joined l rs)).1 final.connects

find_worker-found :
    (q : ℕ) (required : Bytes) (l : QueueLine) (r : ℕ) (rs : List ℕ) (s t : Server) (kept : List ℕ)
    (w : ℕ)
    → IsLine s q l
    → IsLine t q l
    → pick_worker required (l.queue r).workers s ≡ ok (kept, some w) t
    → find_worker q required (r ∷ rs) s ≡ ok (some w) (written q r kept l t)
unfolding find_worker ◌>>=◌ ◌>>◌ pure
find_worker-found q required l r rs s t kept w i j e =
    rw (line-IsLine s q l i, e, set_workers-written t q r kept l j) refl

find_worker-next :
    (q : ℕ) (required : Bytes) (l : QueueLine) (r : ℕ) (rs : List ℕ) (s t : Server) (kept : List ℕ)
    → IsLine s q l
    → IsLine t q l
    → pick_worker required (l.queue r).workers s ≡ ok (kept, none) t
    → find_worker q required (r ∷ rs) s ≡ find_worker q required rs (written q r kept l t)
unfolding find_worker ◌>>=◌ ◌>>◌ pure
find_worker-next q required l r rs s t kept i j e =
    rw (line-IsLine s q l i, e, set_workers-written t q r kept l j) refl

none-Agree : (f g : ℕ → Connect) (o : Option ℕ) → Chosen f o g → o ≡ none → Agree f g
none-Agree f g o h e c = let k = subst (λ z. Chosen f z g) e h c in (k.0, k.1, k.2)

module _ (q : ℕ) (required : Bytes) (l : QueueLine) (r : ℕ) (rs : List ℕ) (s : Server) where
  search_found :
      (w : ℕ) (p : Picked s required (l.queue r).workers)
      → IsLine s q l
      → (choice s.connects required (l.queue r).workers).1 ≡ some w
      → Searched q required l (r ∷ rs) s
  search_found w p i e =
      let ws = (l.queue r).workers in
      let kept = (choice s.connects required ws).0 in
      let all = choice-append_some s.connects required ws (joined l rs) w e in
      let j : IsLine p.final q l = ap (λ z. get_elem? z q) p.lines ∙ i in
      record {
        final = written q r kept l p.final;
        returns =
            find_worker-found q required l r rs s p.final kept w i j
              (p.returns ∙ ap (λ o. ok (kept, o) p.final) e)
            ∙ ap (λ o. ok o (written q r kept l p.final)) (sym all);
        chosen = subst (λ o. Chosen s.connects o p.final.connects) (e ∙ sym all) p.chosen;
      }

  search_next :
      (p : Picked s required (l.queue r).workers)
      → IsLine s q l
      → has r rs ≡ false
      → (choice s.connects required (l.queue r).workers).1 ≡ none
      → Searched q required
          (with_workers r (choice s.connects required (l.queue r).workers).0 l)
          rs
          (written q r (choice s.connects required (l.queue r).workers).0 l p.final)
      → Searched q required l (r ∷ rs) s
  search_next p i out e ih =
      let f = s.connects in
      let ws = (l.queue r).workers in
      let kept = (choice f required ws).0 in
      let g = p.final.connects in
      let k = with_workers r kept l in
      let agree = none-Agree f g (choice f required ws).1 p.chosen e in
      let j : IsLine p.final q l = ap (λ z. get_elem? z q) p.lines ∙ i in
      let same : (choice g required (joined k rs)).1 ≡ (choice f required (ws ++ joined l rs)).1 =
        ap (λ z. (choice g required z).1) (joined-other l r kept rs out)
        ∙ ap (λ z. z.1) (choice-Agree f g required (joined l rs) agree)
        ∙ sym (choice-append_none f required ws (joined l rs) e) in
      record {
        final = ih.final;
        returns =
            find_worker-next q required l r rs s p.final kept i j
              (p.returns ∙ ap (λ o. ok (kept, o) p.final) e)
            ∙ ih.returns
            ∙ ap (λ o. ok o ih.final) same;
        chosen =
            subst (λ o. Chosen f o ih.final.connects) same
              (Chosen-Agree f g ih.final.connects (choice g required (joined k rs)).1 agree
                ih.chosen);
      }

option_cases : {A : Type 0} → (o : Option A) → (o ≡ none) ⊎ ((a : A) × (o ≡ some a))
option_cases none = inl refl
option_cases (some a) = inr (a, refl)

-- Over the queues of a line that is there, each queue once, with a link for each place of a
-- worker, the search of `client_request` returns, as if the queues were one, the first worker that
-- the request asks for and that is open and waits for a job, or none if there is none; the one
-- that is found is busy, and no other status, id or socket is changed.
pub find_worker_lem :
    (rs : List ℕ) (q : ℕ) (required : Bytes) (l : QueueLine) (s : Server)
    → IsLine s q l
    → Distinct rs
    → Linked s.connects (joined l rs)
    → Searched q required l rs s
find_worker_lem [] q required l s i d h = record {
  final = s;
  returns = unfold find_worker choice pure in refl;
  chosen = unfold choice in λ c. (refl, refl, refl);
}
find_worker_lem (r ∷ rs) q required l s i d h =
    let ws = (l.queue r).workers in
    let p = pick_worker_lem s required ws (Linked-left s.connects ws (joined l rs) h) in
    elim (option_cases (choice s.connects required ws).1) [
      | inl e ↦
          let kept = (choice s.connects required ws).0 in
          let k = with_workers r kept l in
          let t = written q r kept l p.final in
          let j : IsLine p.final q l = ap (λ z. get_elem? z q) p.lines ∙ i in
          let there = get_elem?-set p.final.queue_list q (some k) (some l) j in
          let links =
            subst (Linked t.connects) (sym (joined-other l r kept rs d.0))
              (Linked-rest s p.final ws kept (joined l rs) p.links h) in
          search_next q required l r rs s p i d.0 e
            (find_worker_lem rs q required k t there d.1 links)
      | inr (w, e) ↦ search_found q required l r rs s w p i e
    ]

-- A worker in one of the queues that the request asks for, open and waiting for a job, is enough
-- for the search of `client_request` over the queues of a line to return a worker, one that the
-- request asks for, open and waiting, which is busy afterwards; the line is there, each queue is
-- searched once, and every worker has a link for each of its places in the queues.
pub find_worker-some :
    (rs : List ℕ) (q : ℕ) (required : Bytes) (l : QueueLine) (s : Server) (w : ℕ)
    → IsLine s q l
    → Distinct rs
    → Linked s.connects (joined l rs)
    → has w (joined l rs) ≡ true
    → Suits s.connects required w
    → (v : ℕ) × (t : Server) × (find_worker q required rs s ≡ ok (some v) t)
      × Suits s.connects required v
      × ((t.connects v).status ≡ busy)
find_worker-some rs q required l s w i d h e suits =
    let f = s.connects in
    let r = find_worker_lem rs q required l s i d h in
    let (v, found) = choice-finds f required (joined l rs) w e suits in
    let chosen = subst (λ o. Chosen f o r.final.connects) found r.chosen v in
    (
      v,
      r.final,
      r.returns ∙ ap (λ o. ok o r.final) found,
      choice-ready f required (joined l rs) v found,
      chosen.2 ∙ ground arith,
    )
