-- ===== src/Options.antt =====
-- The options of src/main.cpp, and the number of threads that `Server::start` takes from them.
pub mod Threads
use ijson.Prelude.{
  ℕ, leb, ◌==◌, ◌++◌, Bool, true, false, ◌||◌, List, [], ◌∷◌, Bytes, text, if◌then◌else◌, Result,
  ok, err, Error,
}
use ijson.Prelude.Int.{ℤ, pos, negsuc, leb_ℤ}
use ijson.Slice.{atoi, is_empty, equal_text, split_left}
use ijson.NetFilter.{NetFilter, net_filter}
use ijson.Broker.Parse.{to_int}

pub record Options : Type 0 where
  pub host : Bytes
  pub port : ℤ
  pub log : ℤ
  pub threads : ℤ
  pub jsonrpc2 : Bool
  pub filters : List NetFilter

-- How the loop over the arguments ends: the server is started, `main` returns, or an exception
-- leaves it.
pub data Outcome : Type 0 where
  start : Options → Outcome
  exit : ℕ → Outcome
  uncaught : Error → Outcome

-- What the server starts with if no option says otherwise.
abbrev pub default_options : Options
default_options = record {
  host = [];
  port = pos 8001;
  log = pos 15;
  threads = pos 1;
  jsonrpc2 = false;
  filters = [];
}

abbrev pub with_host : Options → Options
with_host o = record o { host = if is_empty o.host then text "127.0.0.1" else o.host }

-- `--host`
unfoldable pub host_option : Options → Bytes → Result Options
unfolding split_left atoi to_int
host_option o value =
    let (h, port) = split_left value b':' in
    let named = if is_empty h then o else record o { host = h } in
    if is_empty port
    then ok named
    else elim (atoi port) [ ok n ↦ ok (record named { port = to_int n }) | err e ↦ err e ]

-- `--log`
unfoldable pub log_option : Options → Bytes → Result Options
unfolding atoi to_int
log_option o value = elim (atoi value) [ ok n ↦ ok (record o { log = to_int n }) | err e ↦ err e ]

-- `--filter`
unfoldable pub filter_option : (Bytes → ℕ) → Options → Bytes → Result Options
unfolding net_filter
filter_option inet_addr o value = elim (net_filter inet_addr value) [
  | ok f ↦ ok (record o {
    filters = o.filters ++ f ∷ [];
    host = if is_empty o.host then text "0.0.0.0" else o.host;
  })
  | err e ↦ err e
]

-- `--threads`; a value that is no number counts as -1.
unfoldable pub threads_value : Bytes → ℤ
unfolding atoi to_int
threads_value value = elim (atoi value) [ ok n ↦ to_int n | err e ↦ negsuc 0 ]

abbrev pub bad_threads : ℤ → Bool
bad_threads n = leb_ℤ n (negsuc 0) || leb_ℤ (pos 33) n

-- The loop over the arguments.
unfoldable pub parse_options : (Bytes → ℕ) → Options → List Bytes → Outcome
unfolding host_option log_option filter_option threads_value
parse_options inet_addr o [] = start (with_host o)
parse_options inet_addr o (s ∷ []) =
    if equal_text s (text "--host")
    then exit 1
    else if equal_text s (text "--filter")
    then exit 1
    else if equal_text s (text "--log")
    then exit 1
    else if equal_text s (text "--help")
    then exit 0
    else if equal_text s (text "--jsonrpc2")
    then start (with_host (record o { jsonrpc2 = true }))
    else if equal_text s (text "--version")
    then exit 0
    else exit 1
parse_options inet_addr o (s ∷ next ∷ args) =
    let go = λ (p : Options). parse_options inet_addr p args in
    if equal_text s (text "--host")
    then elim (host_option o next) [ ok p ↦ go p | err e ↦ exit 1 ]
    else if equal_text s (text "--filter")
    then elim (filter_option inet_addr o next) [ ok p ↦ go p | err e ↦ uncaught e ]
    else if equal_text s (text "--log")
    then elim (log_option o next) [ ok p ↦ go p | err e ↦ exit 1 ]
    else if equal_text s (text "--help")
    then exit 0
    else if equal_text s (text "--jsonrpc2")
    then parse_options inet_addr (record o { jsonrpc2 = true }) (next ∷ args)
    else if equal_text s (text "--version")
    then exit 0
    else if equal_text s (text "--threads")
    then (if bad_threads (threads_value next)
        then exit 1
        else go (record o { threads = threads_value next }))
    else exit 1

-- The number of threads in `Server::start`.
unfoldable pub started_threads : ℤ → ℕ
started_threads (negsuc n) = 1
started_threads (pos n) = if n == 0 then 1 else if leb 63 n then 62 else n
