-- ===== src/Broker/Ids.antt =====
-- The loop of src/server.cpp that looks for the field `id`: each round reads on.
use ijson.Prelude.{
  ℕ, zero, suc, ◌≡◌, refl, ◌∙◌, sym, Bool, true, false, Bytes, [], text, length, ◌<◌, arith,
  if◌then◌else◌, Result, ok, err,
}
use ijson.Slice.{equal_text}
use ijson.Json.{Json, scan}
use ijson.Json.Progress.{Ensures, Scanned, scan-Scanned}
use ijson.Broker.Request.{scan_id}

-- One round, with the loop that goes on.
abbrev round : Result (Bool × Json) → (Json → Result (Json × Bytes)) → Result (Json × Bytes)
round (err e) k = err e
round (ok (false, j)) k = ok (j, [])
round (ok (true, j)) k = if equal_text j.key (text "id") then ok (j, j.value) else k j

scan_id-round : (f : ℕ) (j : Json) → scan_id (suc f) j ≡ round (scan j) (scan_id f)
unfolding scan_id
scan_id-round f j = pick (scan j)
  where
    pick :
        (r : Result (Bool × Json))
        → elim r [
          | err e ↦ err e
          | ok (false, j') ↦ ok (j', [])
          | ok (true, j') ↦
              (let rest = scan_id f j' in
                if equal_text j'.key (text "id") then ok (j', j'.value) else rest)
        ]
          ≡ round r (scan_id f)
    pick (err e) = refl
    pick (ok (false, j')) = refl
    pick (ok (true, j')) = refl

round-cong :
    (n : ℕ) (r : Result (Bool × Json)) (k l : Json → Result (Json × Bytes))
    → Ensures (Scanned n) r
    → ((j : Json) → length j.unread < n → k j ≡ l j)
    → round r k ≡ round r l
round-cong n (err e) k l h all = refl
round-cong n (ok (false, j)) k l h all = refl
round-cong n (ok (true, j)) k l h all = rw (all j h) refl

-- The loop that looks for the field `id` has the same result with any two numbers of rounds above
-- the number of bytes unread, so that the fuel given is enough.
pub scan_id-fuel :
    (f g : ℕ) (j : Json) → length j.unread < f → length j.unread < g → scan_id f j ≡ scan_id g j
scan_id-fuel zero g j h k = absurd (omega arith)
scan_id-fuel (suc f) zero j h k = absurd (omega arith)
scan_id-fuel (suc f) (suc g) j h k =
    scan_id-round f j
    ∙ round-cong (length j.unread) (scan j) (scan_id f) (scan_id g) (scan-Scanned j)
        (λ j' l. scan_id-fuel f g j' (omega arith) (omega arith))
    ∙ sym (scan_id-round g j)
