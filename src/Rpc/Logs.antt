-- ===== src/Rpc/Logs.antt =====
-- `parseLogMessage` of pkg/wallet_sync/rpc.go.
use tax_bro.Prelude.{
  ◌≡◌, refl, Bool, true, false, List, [], ◌∷◌, ◌++◌, Outcome, ok, fault, out_of_range, arith, ◌⊎◌,
  ◌>>=◌, value, error, if◌then◌else◌, Bool-cases, inl, inr, All,
}
use tax_bro.Text.{Bytes, codes, has_prefix, occurs, bytes_eq}
use tax_bro.Text.Split.{split, split_absent, split-append, split-occurs}
use tax_bro.Text.Hex.{encode_to_string}
use tax_bro.Text.Base64.{decode_string}
use tax_bro.Rpc.{index}

-- What is stored of the text behind the prefix.
unfoldable pub stored_log : Bytes → Bytes
stored_log [] = []
stored_log (c ∷ log_data) = elim (decode_string (c ∷ log_data)) [
  | error ↦ c ∷ log_data
  | value bytes ↦ encode_to_string bytes
]

unfoldable pub parse_log_message : Bytes → Outcome Bytes
unfolding stored_log
parse_log_message msg =
    let behind =
      λ (prefix : Bytes). do log_data ← index (split msg prefix) 1; ok (stored_log log_data)
    in if has_prefix msg (codes "Program log:")
      then behind (codes "Program log: ")
      else if has_prefix msg (codes "Program data:")
      then behind (codes "Program data: ")
      else ok []

-- The loop over `meta.LogMessages`: empty results are left out.
unfoldable pub parse_logs : List Bytes → Outcome (List Bytes)
unfolding parse_log_message
parse_logs [] = ok []
parse_logs (msg ∷ messages) = do
  parsed_log ← parse_log_message msg
  logs ← parse_logs messages
  ok (if bytes_eq parsed_log [] then logs else parsed_log ∷ logs)

-- The two prefixes.
pub data Prefix : Type 0 where
  log_text log_data : Prefix

abbrev pub prefix_of : Prefix → Bytes
prefix_of log_text = codes "Program log: "
prefix_of log_data = codes "Program data: "

-- Of a text behind either prefix, in which the prefix does not come again, is stored: the hex of the
-- bytes if it is base64, and the text itself if it is not.
parse_log_message-stored :
    (prefix : Prefix) (body : Bytes)
    → occurs (prefix_of prefix) body ≡ false
    → parse_log_message (prefix_of prefix ++ body) ≡ ok (stored_log body)
unfolding parse_log_message
parse_log_message-stored log_text body h = rw (split-append b'P' (codes "rogram log: ") body h)
parse_log_message-stored log_data body h = rw (split-append b'P' (codes "rogram data: ") body h)

-- A message with neither prefix stores nothing.
pub parse_log_message-other :
    (msg : Bytes)
    → has_prefix msg (codes "Program log:") ≡ false
    → has_prefix msg (codes "Program data:") ≡ false
    → parse_log_message msg ≡ ok []
unfolding parse_log_message
parse_log_message-other msg no_log no_data = rw (no_log, no_data)

-- A message that has the prefix without its blank, and the prefix with its blank nowhere, panics.
parse_log_message-panics :
    (msg : Bytes)
    → has_prefix msg (codes "Program log:") ≡ true
    → occurs (codes "Program log: ") msg ≡ false
    → parse_log_message msg ≡ fault out_of_range
unfolding parse_log_message
parse_log_message-panics msg prefixed absent =
    rw (prefixed, split_absent msg (codes "Program log: ") absent)

-- A message that has a prefix without its blank has it with its blank somewhere.
abbrev pub is_readable : Bytes → Bool
is_readable msg =
    if has_prefix msg (codes "Program log:")
    then occurs (codes "Program log: ") msg
    else if has_prefix msg (codes "Program data:")
    then occurs (codes "Program data: ") msg
    else true

abbrev pub IsReadable : Bytes → Type 0
IsReadable msg = is_readable msg ≡ true

-- Such messages are read without a panic.
parse_log_message-total :
    (msg : Bytes) → IsReadable msg → (log : Bytes) × (parse_log_message msg ≡ ok log)
unfolding parse_log_message
parse_log_message-total msg h = elim (Bool-cases (has_prefix msg (codes "Program log:"))) [
  | inl is_log ↦
      let (a, b, rest, e) = split-occurs b'P' (codes "rogram log: ") msg (rw is_log at h) in
      (stored_log b, rw (is_log, e))
  | inr no_log ↦ elim (Bool-cases (has_prefix msg (codes "Program data:"))) [
    | inl is_data ↦
        let (a, b, rest, e) =
          split-occurs b'P' (codes "rogram data: ") msg (rw (no_log, is_data) at h) in
        (stored_log b, rw (no_log, is_data, e))
    | inr no_data ↦ ([], rw (no_log, no_data))
  ]
]

unreadable-panics :
    (msg : Bytes) → is_readable msg ≡ false → parse_log_message msg ≡ fault out_of_range
unfolding parse_log_message
unreadable-panics msg h = elim (Bool-cases (has_prefix msg (codes "Program log:"))) [
  | inl is_log ↦ parse_log_message-panics msg is_log (rw is_log at h)
  | inr no_log ↦ elim (Bool-cases (has_prefix msg (codes "Program data:"))) [
    | inl is_data ↦
        rw (no_log, is_data, split_absent msg (codes "Program data: ") (rw (no_log, is_data) at h))
    | inr no_data ↦ absurd (ground (arith, h, no_log, no_data))
  ]
]

-- A log message is read without a panic if a prefix that it begins with, without its blank, is in
-- it with its blank, and panics if not.
pub parse_log_message_lem :
    (msg : Bytes)
    → (IsReadable msg × ((log : Bytes) × (parse_log_message msg ≡ ok log)))
      ⊎ ((is_readable msg ≡ false) × (parse_log_message msg ≡ fault out_of_range))
parse_log_message_lem msg = elim (Bool-cases (is_readable msg)) [
  | inl readable ↦ inl (readable, parse_log_message-total msg readable)
  | inr unreadable ↦ inr (unreadable, unreadable-panics msg unreadable)
]

pub parse_logs-total :
    (messages : List Bytes)
    → All IsReadable messages
    → (logs : List Bytes) × (parse_logs messages ≡ ok logs)
unfolding parse_logs
parse_logs-total [] h = ([], refl)
parse_logs-total (msg ∷ messages) h =
    let (log, read) = parse_log_message-total msg h.0 in
    let (logs, rest) = parse_logs-total messages h.1 in
    (if bytes_eq log [] then logs else log ∷ logs, rw (read, rest))
