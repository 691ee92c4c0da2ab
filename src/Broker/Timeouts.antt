-- ===== src/Broker/Timeouts.antt =====
-- `_check_timeout` of src/server.cpp: what becomes of one worker.
pub mod Lists
use ijson.Prelude.{
  ℕ, ◌+◌, ◌%◌, ◌^◌, ◌≡◌, refl, sym, ap, ◌∙◌, inl, inr, Bool-cases, Bool, true, false, not, ◌||◌,
  List, [], ◌∷◌, ◌++◌, Bytes, text, ltb, ◌==◌, if◌then◌else◌, Option, none, some, arith,
}
use ijson.Broker.{
  Connect, Queue, QueueLine, Server, ok, M, store, and_then, ◌>>=◌, ◌>>◌, connect, update, skip,
  gets, throw,
}
use ijson.Broker.Http.{crlf, status, done}
use ijson.Broker.Queues.{is_waiting_job, upto}
use ijson.Broker.Request.{after_job}
use ijson.Broker.Sent.{status_line}
use ijson.Broker.Changed.{
  Changed, polled, updated_lem, Changed-none, Changed-as, Changed-then, write_mode_on_lem, if-true,
  if-false, if-same, once_more, same_for,
}
use ijson.Broker.Rpc.Publish.{among}
use ijson.Broker.Round.{time_out, time_out_all, time_out_line, time_out_lines, check_timeout}

-- A worker that pings, waits, and has not been heard of in time.
abbrev pub expires : ℕ → Connect → Bool
expires now k =
    not (k.ping == 0 || ltb now k.ping_timeout || k.closed || not (is_waiting_job k.status))

-- It waits no longer, is answered, and has its time anew.
abbrev pub freed : Connect → Connect
freed k = record k { status = after_job k }

abbrev pub lined : Connect → Connect
lined k = record k { send_buffer = k.send_buffer ++ status_line k.keep_alive (text "408 Timeout") }

abbrev pub bodied : Connect → Connect
bodied k = record k { send_buffer = k.send_buffer ++ (text "Content-Length: 0" ++ crlf ++ crlf) }

abbrev pub ended : Connect → Connect
ended k = polled (bodied k)

abbrev pub timed : ℕ → Connect → Connect
timed now k = record k { ping_timeout = (now + k.ping) % 2 ^ 32 }

abbrev pub answered : ℕ → Connect → Connect
answered now k = if expires now k then timed now (ended (lined (freed k))) else k

abbrev pub Does : M (Unit {0}) → ℕ → (Connect → Connect) → Server → Type 0
Does m w f s = (t : Server) × (m s ≡ ok tt t) × Changed w f s t

status-Does : (w : ℕ) (s : Server) → Does (status w (text "408 Timeout")) w lined s
unfolding status ◌>>=◌ connect update
status-Does w s = (_, refl, updated_lem w lined s)

done-Does : (w : ℕ) (s : Server) → (s.connects w).closed ≡ false → Does (done w) w ended s
unfolding done ◌>>=◌ ◌>>◌ connect update throw
done-Does w s e =
    let a = record s { connects = store s.connects w (bodied (s.connects w)) } in
    let (t, p, c, _) = write_mode_on_lem w a in
    (
      t,
      ap (λ (m : M (Unit {0})). m s) (if-false (s.connects w).closed _ _ e) ∙ p,
      Changed-then w bodied polled s a t (updated_lem w bodied s) c,
    )

-- The answer to a worker that waits.
answer-Does :
    (now w : ℕ) (s : Server)
    → (s.connects w).closed ≡ false
    → Does
        (do
          update w (λ k. record k { status = after_job k })
          status w (text "408 Timeout")
          done w
          update w (λ k. record k { ping_timeout = (now + k.ping) % 2 ^ 32 }))
        w
        (λ k. timed now (ended (lined (freed k))))
        s
unfolding ◌>>◌ update
answer-Does now w s e =
    let a = record s { connects = store s.connects w (freed (s.connects w)) } in
    let (b, p, c) = status-Does w a in
    let first = Changed-then w freed lined s a b (updated_lem w freed s) c in
    let alive : (b.connects w).closed ≡ false =
      ap (λ (k : Connect). k.closed) (first.connects w ∙ if-same w _ _) ∙ e in
    let (t, q, d) = done-Does w b alive in
    let second = Changed-then w (λ k. lined (freed k)) ended s b t first d in
    (
      record t { connects = store t.connects w (timed now (t.connects w)) },
      rw (p, q) refl,
      Changed-then w (λ k. ended (lined (freed k))) (timed now) s t _ second
          (updated_lem w (timed now) t),
    )

open_of : (now : ℕ) (k : Connect) → expires now k ≡ true → k.closed ≡ false
open_of now k e = ground (arith, e)

pub time_out-Does : (now w : ℕ) (s : Server) → Does (time_out now w) w (answered now) s
unfolding time_out ◌>>=◌ connect skip
time_out-Does now w s =
    let k = s.connects w in
    let spared =
      k.ping == 0 || ltb now k.ping_timeout || k.closed || not (is_waiting_job k.status) in
    elim (Bool-cases spared) [
      | inl e ↦ (
        s,
        ap (λ (m : M (Unit {0})). m s) (if-true spared _ _ e),
        Changed-none w (answered now) s (sym (if-false (not spared) _ _ (ap not e))),
      )
      | inr e ↦
          let (t, p, c) = answer-Does now w s (open_of now k (ap not e)) in
          (
            t,
            ap (λ (m : M (Unit {0})). m s) (if-false spared _ _ e) ∙ p,
            Changed-as w _ (answered now) s t c (sym (if-true (not spared) _ _ (ap not e))),
          )
    ]
