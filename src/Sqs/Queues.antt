-- ===== src/Sqs/Queues.antt =====
-- The names of queues: QueueName and VerifyQueue of internal/platform/sqs/client.go, and
-- destQueueURL of consumer.go.
pub mod Names
use go_mongo_boilerplate.Base.{
  ℕ, suc, ◌+◌, ◌-◌, ◌/◌, ◌%◌, ◌==◌, ◌||◌, ltb, Bool, true, false, List, [], ◌∷◌, ◌++◌, Option, none,
  some, take, drop, if◌then◌else◌,
}
use go_mongo_boilerplate.Stdlib.Text.{Text, codes, trim_suffix, last_index}
use go_mongo_boilerplate.Stdlib.Errors.{GoError, plain, wrap}

-- The part behind the last slash; `last_index` is the loop from the end.
unfoldable pub queue_name : Text → Text × Option GoError
queue_name [] = ([], some (plain (codes "sqs: empty queue URL")))
queue_name (c ∷ url) = elim (last_index b'/' (c ∷ url)) [
  | some i ↦ (drop (suc i) (c ∷ url), none)
  | none ↦ (c ∷ url, none)
]

abbrev pub hex_digit : ℕ → ℕ
hex_digit n = if ltb n 10 then b'0' + n else b'a' + (n - 10)

-- How `%q` writes a character; those from 128 on are printable here.
unfoldable pub quoted_char : ℕ → Text
quoted_char c =
    if c == b'"'
    then codes "\\\""
    else if c == b'\\'
    then codes "\\\\"
    else if c == 7
    then codes "\\a"
    else if c == 8
    then codes "\\b"
    else if c == 9
    then codes "\\t"
    else if c == 10
    then codes "\\n"
    else if c == 11
    then codes "\\v"
    else if c == 12
    then codes "\\f"
    else if c == 13
    then codes "\\r"
    else if ltb c 32 || c == 127
    then codes "\\x" ++ (hex_digit (c / 16) ∷ hex_digit (c % 16) ∷ [])
    else c ∷ []

unfoldable pub quoted : Text → Text
unfolding quoted_char
quoted [] = []
quoted (c ∷ s) = quoted_char c ++ quoted s

-- `get_queue_url` is the call of the SDK.
unfoldable pub verify_queue : (Text → Option GoError) → Text → Option GoError
unfolding quoted
verify_queue get_queue_url queue_url =
    let (name, err) = queue_name queue_url in
    elim err [
      | some e ↦ some e
      | none ↦ elim (get_queue_url name) [
        | some e ↦ some (wrap (codes "sqs: verify queue \"" ++ (quoted name ++ codes "\": ")) e [])
        | none ↦ none
      ]
    ]

unfoldable pub dest_queue_url : Text → Text → Text → Bool → Text
dest_queue_url origin_url retry_suffix dlq_suffix to_dlq = elim (last_index b'/' origin_url) [
  | none ↦ origin_url
  | some idx ↦
      let base = trim_suffix (drop (suc idx) origin_url) retry_suffix in
      take (suc idx) origin_url ++ (base ++ (if to_dlq then dlq_suffix else retry_suffix))
]
