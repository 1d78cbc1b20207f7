-- ===== src/Examples/Attaching.antt =====
-- A client that attaches to a terminal.
use uprava.Prelude.{
  ◌-◌, ◌*◌, ◌^◌, ◌≤◌, ℕ, ◌≡◌, ◌⊎◌, true, false, some, List, [], ◌∷◌, arith, Text, codes, byte_len,
  utf8_len, ltb, if◌then◌else◌, length, drop, decimal, pos,
}
use uprava.Node.Terminal.{
  WorkspaceTerminalOutputFrame, TerminalHost, Selected, Terminal, opened, on_selected, attach,
}
use uprava.Node.Terminal.Replay.{within_limits}
use uprava.Node.Terminal.History.{Buffered, recorded, added, Reaches}
use uprava.Node.Terminal.Attached.{caught_up, attach-Reaches}

-- Bytes that are no ASCII become replacement characters.
replace_invalid : List ℕ → Text
replace_invalid [] = []
replace_invalid (b ∷ bytes) = (if ltb b 128 then b else 65533) ∷ replace_invalid bytes

byte_len-replace_invalid : (bytes : List ℕ) → byte_len (replace_invalid bytes) ≤ 3 * length bytes
unfolding replace_invalid byte_len utf8_len
byte_len-replace_invalid [] = omega arith
byte_len-replace_invalid (b ∷ bytes) = ground (arith, byte_len-replace_invalid bytes)

abbrev host : TerminalHost
host = record {
  new_frame_id = λ n. decimal n;
  utc_now = λ n. n;
  from_utf8_lossy = replace_invalid;
  exit_code = some (pos 0);
}

byte_len-from_utf8_lossy :
    (bytes : List ℕ) → byte_len (host.from_utf8_lossy bytes) ≤ 3 * length bytes
unfolding replace_invalid
byte_len-from_utf8_lossy bytes = byte_len-replace_invalid bytes

abbrev greeting : Selected
greeting = Selected.read (104 ∷ 105 ∷ [])

abbrev begun : Terminal
begun = opened (codes "terminal-1") 7

abbrev greeted : Terminal
greeted = on_selected host greeting begun

abbrev said : List WorkspaceTerminalOutputFrame
said = added host [] (recorded host greeting begun)

greeting-Buffered : Buffered greeting
unfolding Buffered
greeting-Buffered = omega arith

greeted-Reaches : Reaches host greeted said
greeted-Reaches =
    Reaches.turn begun [] greeting greeting-Buffered (Reaches.opened_at (codes "terminal-1") 7)

said-few : length said ≤ 2 ^ 64 - 1
unfolding recorded opened
said-few = omega arith

attach-Reaches_example :
    (k : ℕ) × (attach host (codes "terminal-1") (some greeted)
      ≡ caught_up host (codes "terminal-1") k (drop k said))
    × (within_limits (drop k said) ≡ true)
    × ((k ≡ 0) ⊎ (within_limits (drop (k - 1) said) ≡ false))
attach-Reaches_example =
    attach-Reaches host byte_len-from_utf8_lossy greeted said (codes "terminal-1") greeted-Reaches
      said-few
