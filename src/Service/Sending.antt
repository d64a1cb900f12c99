-- ===== src/Service/Sending.antt =====
-- What runAgent of cmd/service/core.go sends: reports of a task with their three attempts, and the
-- hash of the inventory over the WebSocket. Times are in nanoseconds.
use appcenter_agent.Common.{
  ℕ, zero, suc, ◌-◌, ◌*◌, ◌^◌, String, Bool, false, not, ◌&&◌, Option, none, some, List, [], ◌∷◌,
  ltb, if◌then◌else◌, nat_eq, int_eq, string_eq, is_blank,
}
use appcenter_agent.Common.Text.{trim_space}
use appcenter_agent.Inventory.Appx.{equal_fold}

-- one attempt: whether it succeeds, and whether the context is done before the wait after it is over
pub record Try : Type 0 where
  pub succeeds : Bool
  pub cancelled : Bool

-- sent, given up after the last attempt, or the context was done
pub data Report : Type 0 where
  reported : Report
  gave_up : Report
  stopped : Report

-- reportFn: the result, and the waits in seconds; `left` attempts are left and the next is number
-- `attempt`. What the network does in attempt n is `tries n`.
unfoldable pub report_from : (ℕ → Try) → ℕ → ℕ → Report × List ℕ
report_from tries zero attempt = (gave_up, [])
report_from tries (suc left) attempt =
    let rest = report_from tries left (suc attempt) in
    if (tries attempt).succeeds
    then (reported, [])
    else if (tries attempt).cancelled
    then (stopped, attempt ∷ [])
    else (rest.0, attempt ∷ rest.1)

unfoldable pub report : (ℕ → Try) → Report × List ℕ
unfolding report_from
report tries = report_from tries 3 1

-- lastWSInventoryHashSent and lastWSInventoryHashAt
pub record HashSent : Type 0 where
  pub hash : String
  pub at : Option ℕ

abbrev pub ws_inventory_hash_interval : ℕ
ws_inventory_hash_interval = 15 * 60 * 10 ^ 9

abbrev pub is_early : ℕ → Option ℕ → Bool
is_early now none = false
is_early now (some at) = ltb (now - at) ws_inventory_hash_interval

-- sendWSInventoryHash: the hash that is handed to SendEvent, and whether that succeeds is `sends`.
-- A hash holds none of the letters that fold beyond ASCII.
unfoldable pub send_ws_inventory_hash :
    Bool → Bool → Bool → ℕ → String → HashSent → Option String × HashSent
unfolding trim_space equal_fold
send_ws_inventory_hash active sends force now current last =
    let hash = trim_space current in
    if not active
    then (none, last)
    else if is_blank hash
    then (none, last)
    else if not force && equal_fold hash last.hash && is_early now last.at
    then (none, last)
    else (some hash, if sends then record { hash = hash; at = some now } else last)
