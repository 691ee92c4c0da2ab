-- ===== src/Broker/Parse.antt =====
-- The request line and the headers: `read_method`, `_set_type` and `read_header` of src/connect.cpp.
pub mod Path
use ijson.Prelude.{
  ℕ, suc, ◌+◌, ◌-◌, ◌%◌, ◌^◌, Bool, true, false, not, ◌&&◌, List, [], ◌∷◌, Bytes, text, ltb, ◌==◌,
  if◌then◌else◌, Option, none, some, length, Result, ok, err, invalid_data,
}
use ijson.Prelude
use ijson.Prelude.Int.{ℤ, pos, negsuc, sub_ℕ, pos_part, neg_part}
use ijson.Slice.{equal_text, starts_with_lc, remove, atoi, is_empty}
use ijson.Broker.{
  RequestType, get, get_plus, worker, async, publish, result, create, del, Connect, Server, M, pure,
  ◌>>=◌, ◌>>◌, skip, gets, update, lift,
}

-- The conversions of an `int64_t` to `uint32_t` and to `int`: the low 32 bits.
unfoldable pub to_u32 : ℤ → ℕ
to_u32 (pos n) = n % 2 ^ 32
to_u32 (negsuc n) = 2 ^ 32 - 1 - n % 2 ^ 32

unfoldable pub to_int : ℤ → ℤ
unfolding to_u32
to_int i = let n = to_u32 i in if ltb n (2 ^ 31) then pos n else sub_ℕ n (2 ^ 32)

-- What is behind the first space of a line, and what is before it; `none` without a space.
unfoldable pub behind_space : Bytes → Option Bytes
behind_space [] = none
behind_space (a ∷ s) = let rest = behind_space s in if a == b' ' then some s else rest

unfoldable pub before_space : Bytes → Option Bytes
before_space [] = none
before_space (a ∷ s) =
    let rest : Option Bytes = elim (before_space s) [ none ↦ none | some t ↦ some (a ∷ t) ] in
    if a == b' ' then some [] else rest

-- One slash before more of a path is left out.
unfoldable pub path_of : Bytes → Bytes
path_of [] = []
path_of (a ∷ []) = a ∷ []
path_of (a ∷ b ∷ s) = if a == b'/' then b ∷ s else a ∷ b ∷ s

-- The loop of `read_method`: the path stands between the first two spaces.
unfoldable pub read_path : Bytes → Bytes
unfolding behind_space before_space path_of
read_path line = elim (behind_space line) [
  | none ↦ []
  | some s ↦ elim (before_space s) [ none ↦ [] | some p ↦ path_of p ]
]

unfoldable pub last_is_one : Bytes → Bool
last_is_one [] = false
last_is_one (a ∷ []) = a == b'1'
last_is_one (a ∷ b ∷ s) = last_is_one (b ∷ s)

-- `read_method`; `false` is the return of -1.
unfoldable pub read_method : ℕ → Bytes → M Bool
unfolding read_path last_is_one
read_method c line = do
  let path = read_path line
  update c (λ k. record k { path = path; http_version = if last_is_one line then 11 else 10 })
  pure (not (is_empty path))

-- `_set_type`
unfoldable pub type_of : Bytes → Result RequestType
type_of s =
    if equal_text s (text "get")
    then ok get
    else if equal_text s (text "get+")
    then ok get_plus
    else if equal_text s (text "worker")
    then ok worker
    else if equal_text s (text "async")
    then ok async
    else if equal_text s (text "pub")
    then ok publish
    else if equal_text s (text "result")
    then ok result
    else if equal_text s (text "create")
    then ok create
    else if equal_text s (text "delete")
    then ok del
    else err invalid_data

unfoldable pub set_type : ℕ → Bytes → M (Unit {0})
unfolding type_of
set_type c s = do t ← lift (type_of s); update c (λ k. record k { type = t })

abbrev pub header_is : Bytes → Bytes → Bool
header_is line name = starts_with_lc line name

-- `read_header`
unfoldable pub read_header : ℕ → Bytes → M (Unit {0})
unfolding starts_with_lc set_type to_int to_u32
read_header c line =
    if header_is line (text "content-length: ")
    then (do
      n ← lift (atoi (remove line 16))
      update c (λ k. record k { content_length = to_int n }))
    else if header_is line (text "type: ")
    then set_type c (remove line 6)
    else if header_is line (text "x-type: ")
    then set_type c (remove line 8)
    else if header_is line (text "name: ")
    then update c (λ k. record k { name = remove line 6 })
    else if header_is line (text "id: ")
    then update c (λ k. record k { id = remove line 4 })
    else if header_is line (text "option: ")
    then update c (λ k. record k { header_option = remove line 8 })
    else if header_is line (text "priority: ")
    then (do n ← lift (atoi (remove line 10)); update c (λ k. record k { priority = to_int n }))
    else if header_is line (text "worker-id: ")
    then update c (λ k. record k { required_worker = remove line 11 })
    else if header_is line (text "set-id: ")
    then update c (λ k. record k { connection_id = remove line 8 })
    else if header_is line (text "timeout: ")
    then (do
      n ← lift (atoi (remove line 9))
      now ← gets (λ s. s.now)
      update c (λ k. record k { ping = to_u32 n; ping_timeout = (now + to_u32 n) % 2 ^ 32 }))
    else skip
