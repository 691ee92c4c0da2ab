-- ===== src/Broker/Drop.antt =====
-- The loops that take workers out of a deque, of `_add_worker` and of `_clean_dead_tasks`.
use mathlib.Core.Path.{fun_ext}
use ijson.Prelude.{
  ℕ, ◌+◌, ◌≡◌, refl, sym, subst, ◌∙◌, ap, inl, inr, Bool, true, false, not, ◌||◌, List, [], ◌∷◌,
  ◌==◌, ◌<◌, if◌then◌else◌, Bool-cases, arith,
}
use ijson.Broker.{Connect, Server, Run, ok, M, pure, and_then, ◌>>=◌, ◌>>◌, connect, unlink}
use ijson.Broker.Links.{unlinked, unlink-linked}
use ijson.Broker.Queues.{is_waiting_job}
use ijson.Broker.Pick.{Agree, Linked, times, unlinked-Agree, unlinked-Linked, has_link, Linked-tail}
use ijson.Broker.Worker.{drop_workers}
use ijson.Broker.Clean.{clean_workers}

-- The workers that do not pass the test.
abbrev pub keep : (ℕ → Bool) → List ℕ → List ℕ
keep p [] = []
keep p (c ∷ cs) = if p c then keep p cs else c ∷ keep p cs

-- The loop returned the workers that it keeps, and each connection has lost a link for each time
-- that it was dropped.
pub record Dropped (p : ℕ → Bool) (s : Server) (ws : List ℕ) (r : Run (List ℕ)) : Type 0 where
  pub final : Server
  pub returns : r ≡ ok (keep p ws) final
  pub agree : Agree s.connects final.connects
  pub links :
      (c : ℕ) → (final.connects c).link + times c ws ≡ (s.connects c).link + times c (keep p ws)
  pub lines : final.queue_list ≡ s.queue_list
  pub waiting : final.wait_response ≡ s.wait_response

-- What both loops are.
drop_if : (Connect → ℕ → Bool) → List ℕ → M (List ℕ)
drop_if p [] = pure []
drop_if p (c ∷ cs) =
    let rest = drop_if p cs in
    do k ← connect c; if p k c then (do unlink c; rest) else (do kept ← rest; pure (c ∷ kept))

module _ (p : ℕ → Bool) (c : ℕ) (cs : List ℕ) where
  keep_dropped : p c ≡ true → keep p (c ∷ cs) ≡ keep p cs
  keep_dropped e = rw e refl

  keep_kept : p c ≡ false → keep p (c ∷ cs) ≡ c ∷ keep p cs
  keep_kept e = rw e refl

unlinked-link :
    (w : ℕ) (s : Server)
    → 0 < (s.connects w).link
    → (c : ℕ) → ((unlinked w s).connects c).link + (if w == c then 1 else 0) ≡ (s.connects c).link
unlinked-link w s h c = ground arith

module _ (p : Connect → ℕ → Bool)
    (stable : (k l : Connect) (c : ℕ)
      → l.closed ≡ k.closed
      → l.status ≡ k.status
      → p l c ≡ p k c) where
  test : Server → ℕ → Bool
  test s c = p (s.connects c) c

  keep-Agree :
      (s t : Server) (ws : List ℕ)
      → Agree s.connects t.connects
      → keep (test t) ws ≡ keep (test s) ws
  unfolding test
  keep-Agree s t [] a = refl
  keep-Agree s t (c ∷ cs) a =
      rw (stable (s.connects c) (t.connects c) c (a c).1 (a c).2, keep-Agree s t cs a) refl

  dropping :
      (s : Server) (c : ℕ) (cs : List ℕ)
      → test s c ≡ true
      → drop_if p (c ∷ cs) s ≡ and_then (unlink c s) (λ _. drop_if p cs)
  unfolding drop_if test ◌>>=◌ unlink connect ◌>>◌
  dropping s c cs e = rw e refl

  keeping :
      (s : Server) (c : ℕ) (cs : List ℕ)
      → test s c ≡ false
      → drop_if p (c ∷ cs) s ≡ and_then (drop_if p cs s) (λ kept. pure (c ∷ kept))
  unfolding drop_if test ◌>>=◌ pure connect
  keeping s c cs e = rw e refl

  Agree-trans : (f g h : ℕ → Connect) → Agree f g → Agree g h → Agree f h
  Agree-trans f g h a b c = ground (arith, a c, b c)

  drop_if_lem :
      (s : Server) (ws : List ℕ) → Linked s.connects ws → Dropped (test s) s ws (drop_if p ws s)
  unfolding pure
  drop_if_lem s [] l =
      unfold drop_if in
      record {
        final = s;
        returns = refl;
        agree = λ c. (refl, refl, refl);
        links = λ c. refl;
        lines = refl;
        waiting = refl;
      }
  drop_if_lem s (w ∷ ws) l = elim (Bool-cases (test s w)) [
    | inl e ↦
        let t = unlinked w s in
        let h = drop_if_lem t ws (unlinked-Linked w ws s l) in
        let same = keep-Agree s t ws (unlinked-Agree w s) in
        record {
          final = h.final;
          returns =
              dropping s w ws e
              ∙ ap (λ r. and_then r (λ _. drop_if p ws))
                  (unlink-linked w s (has_link s.connects w ws l))
              ∙ h.returns
              ∙ ap (λ k. ok k h.final) (same ∙ sym (keep_dropped (test s) w ws e));
          agree = Agree-trans s.connects t.connects h.final.connects (unlinked-Agree w s) h.agree;
          links = λ c. omega (
            arith,
            h.links c,
            unlinked-link w s (has_link s.connects w ws l) c,
            ap (times c) same,
            ap (times c) (keep_dropped (test s) w ws e),
          );
          lines = h.lines;
          waiting = h.waiting;
        }
    | inr e ↦
        let h = drop_if_lem s ws (Linked-tail s.connects w ws l) in
        record {
          final = h.final;
          returns =
              keeping s w ws e
              ∙ ap (λ r. and_then r (λ kept. pure (w ∷ kept))) h.returns
              ∙ ap (λ k. ok k h.final) (sym (keep_kept (test s) w ws e));
          agree = h.agree;
          links = λ c. omega (arith, h.links c, ap (times c) (keep_kept (test s) w ws e));
          lines = h.lines;
          waiting = h.waiting;
        }
  ]

ready_stable :
    (k l : Connect) (c : ℕ)
    → l.closed ≡ k.closed
    → l.status ≡ k.status
    → (l.closed || not (is_waiting_job l.status)) ≡ (k.closed || not (is_waiting_job k.status))
ready_stable k l c e d = rw (e, d) refl

clean_workers-drop_if :
    (ws : List ℕ) (s : Server)
    → clean_workers ws s ≡ drop_if (λ k _. k.closed || not (is_waiting_job k.status)) ws s
unfolding clean_workers drop_if ◌>>=◌ connect
clean_workers-drop_if [] s = refl
clean_workers-drop_if (w ∷ ws) s =
    ap
      (λ (r : M (List ℕ)).
        (if (s.connects w).closed || not (is_waiting_job (s.connects w).status)
            then (do unlink w; r)
            else (do kept ← r; pure (w ∷ kept)))
          s)
      (fun_ext (clean_workers-drop_if ws))

-- For workers that have a link for each time that they stand in a deque, the cleaning of the deque
-- returns without an exception the open workers that wait for a job, in their order; each
-- connection has lost a link for each time that it was dropped, and no id, socket or status, no
-- queue line and no waiting client is changed.
pub clean_workers_lem :
    (s : Server) (ws : List ℕ)
    → Linked s.connects ws
    → Dropped
        (λ c. (s.connects c).closed || not (is_waiting_job (s.connects c).status))
        s
        ws
        (clean_workers ws s)
unfolding test
clean_workers_lem s ws l =
    subst (Dropped (λ c. (s.connects c).closed || not (is_waiting_job (s.connects c).status)) s ws)
      (sym (clean_workers-drop_if ws s))
      (drop_if_lem (λ k _. k.closed || not (is_waiting_job k.status)) ready_stable s ws l)

drop_workers-drop_if :
    (worker : ℕ) (ws : List ℕ) (s : Server)
    → drop_workers worker ws s ≡ drop_if (λ k c. k.closed || (c == worker)) ws s
unfolding drop_workers drop_if ◌>>=◌ connect
drop_workers-drop_if worker [] s = refl
drop_workers-drop_if worker (w ∷ ws) s =
    ap
      (λ (r : M (List ℕ)).
        (if (s.connects w).closed || (w == worker)
            then (do unlink w; r)
            else (do kept ← r; pure (w ∷ kept)))
          s)
      (fun_ext (drop_workers-drop_if worker ws))

-- For workers that have a link for each time that they stand in a deque, the loop of `_add_worker`
-- over the deque returns without an exception the open workers other than the one that is added,
-- in their order; each connection has lost a link for each time that it was dropped, and no id,
-- socket or status, no queue line and no waiting client is changed.
drop_workers_lem :
    (s : Server) (worker : ℕ) (ws : List ℕ)
    → Linked s.connects ws
    → Dropped (λ c. (s.connects c).closed || (c == worker)) s ws (drop_workers worker ws s)
unfolding test
drop_workers_lem s worker ws l =
    subst (Dropped (λ c. (s.connects c).closed || (c == worker)) s ws)
      (sym (drop_workers-drop_if worker ws s))
      (drop_if_lem (λ k c. k.closed || (c == worker)) (λ k l c e d. rw e refl) s ws l)
