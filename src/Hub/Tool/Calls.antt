-- ===== src/Hub/Tool/Calls.antt =====
-- The calls to a tool's process in internal/hub/supervisor.go: callRaw, callRawLocked, readLoop and the
-- closing of the calls that wait, as far as their channels go; the write to the process is left out.
-- Each access under `pendingMu` is one step. A send on a closed channel and a second close are panics
-- of Go.
pub mod Safe
use Prim.Native.Nat.{◌%◌, ◌^◌}
use oh_my_code_agent.Prelude.{ℕ, String, Bool, true, false, Option, none, some, ◌+◌, ◌<◌, ◌≡◌, ◌≢◌}
use oh_my_code_agent.Hub.Pool.Callers.{replace}

-- a channel with room for one response
pub data Channel : Type 0 where
  empty : Channel
  filled : String → Channel
  closed : Channel

-- The counter of ids, the ids in `pending`, the response that `readLoop` has taken for an id and not yet
-- sent, and the channel of each id.
pub record Calls : Type 0 where
  pub req_seq : ℕ
  pub pending : ℕ → Bool
  pub in_flight : ℕ → Option String
  pub channel : ℕ → Channel

abbrev pub no_calls : Calls
no_calls = record { req_seq = 0; pending = λ i. false; in_flight = λ i. none; channel = λ i. empty }

pub data Outcome : Type 0 where
  goes_on : Calls → Outcome
  panics : Outcome

-- One step. A run makes fewer than 2 ^ 64 calls, so that no id comes back. A call leaves `pending` where
-- its request is not written or its context ends; a response that is read leaves it too, and is sent
-- after the lock is given up. The closing is the loop of `Stop` or of the end of `readLoop`, an id at a
-- time.
pub data Act (c : Calls) : Outcome → Type 0 where
  begin_call :
      c.req_seq + 1 < 2 ^ 64
      → Act c (
          goes_on (record c {
            req_seq = (c.req_seq + 1) % 2 ^ 64;
            pending = replace c.pending ((c.req_seq + 1) % 2 ^ 64) true;
            channel = replace c.channel ((c.req_seq + 1) % 2 ^ 64) empty;
          }))
  leave : (i : ℕ) → Act c (goes_on (record c { pending = replace c.pending i false }))
  read_response :
      (i : ℕ) (r : String)
      → c.pending i ≡ true
      → Act c (
          goes_on (record c {
            pending = replace c.pending i false;
            in_flight = replace c.in_flight i (some r);
          }))
  read_unknown : (i : ℕ) → c.pending i ≡ false → Act c (goes_on c)
  deliver :
      (i : ℕ) (r : String)
      → c.in_flight i ≡ some r
      → c.channel i ≡ empty
      → Act c (
          goes_on (record c {
            in_flight = replace c.in_flight i none;
            channel = replace c.channel i (filled r);
          }))
  deliver_panics :
      (i : ℕ) (r : String) → c.in_flight i ≡ some r → c.channel i ≡ closed → Act c panics
  close_pending :
      (i : ℕ)
      → c.pending i ≡ true
      → c.channel i ≢ closed
      → Act c (
          goes_on (record c {
            pending = replace c.pending i false;
            channel = replace c.channel i closed;
          }))
  close_panics : (i : ℕ) → c.pending i ≡ true → c.channel i ≡ closed → Act c panics
  receive_response :
      (i : ℕ) (r : String)
      → c.channel i ≡ filled r
      → Act c (goes_on (record c { channel = replace c.channel i empty }))

pub data Reached : Calls → Type 0 where
  at_start : Reached no_calls
  after_act : {c d : Calls} → Reached c → Act c (goes_on d) → Reached d
