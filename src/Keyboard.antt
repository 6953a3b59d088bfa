-- ===== src/Keyboard.antt =====
-- drivers/keyboard/keyboard.c: the ring of key codes and the handler of scan codes. The messages on
-- the serial line are left out.
mod Tests
pub mod Ring
pub mod Keys
use reta_os.Prelude.{
  ℕ, zero, suc, ◌+◌, ◌-◌, ◌%◌, Bool, true, false, not, ◌&&◌, ◌||◌, List, [], ◌∷◌, ltb, leb, ◌==◌,
  if◌then◌else◌, get_or, set,
}
use reta_os.Prelude.Int.{ℤ, pos, negsuc, minus}

abbrev pub buf_size : ℕ
buf_size = 128

-- The static variables of the file.
pub record Keyboard : Type 0 where
  pub ring : List ℕ
  pub head : ℕ
  pub tail : ℕ
  pub shift_l : Bool
  pub shift_r : Bool
  pub caps : Bool
  pub e0_pending : Bool

abbrev pub kbd_left : ℕ
kbd_left = 0x101

abbrev pub kbd_right : ℕ
kbd_right = 0x102

abbrev pub kbd_up : ℕ
kbd_up = 0x103

abbrev pub kbd_down : ℕ
kbd_down = 0x104

abbrev pub kbd_home : ℕ
kbd_home = 0x105

abbrev pub kbd_end : ℕ
kbd_end = 0x106

abbrev pub kbd_del : ℕ
kbd_del = 0x107

-- The entries that are written in the tables `map` and `map_shift`; the others are 0.
pub map : List ℕ
map =
    0 ∷ 27 ∷ b'1' ∷ b'2' ∷ b'3' ∷ b'4' ∷ b'5' ∷ b'6' ∷ b'7' ∷ b'8' ∷ b'9' ∷ b'0' ∷ b'-' ∷ b'=' ∷ 8
    ∷ 9 ∷ b'q' ∷ b'w' ∷ b'e' ∷ b'r' ∷ b't' ∷ b'y' ∷ b'u' ∷ b'i' ∷ b'o' ∷ b'p' ∷ b'[' ∷ b']' ∷ 92 ∷ 0
    ∷ b'a' ∷ b's' ∷ b'd' ∷ b'f' ∷ b'g' ∷ b'h' ∷ b'j' ∷ b'k' ∷ b'l' ∷ b';' ∷ 39 ∷ 96 ∷ 0 ∷ 92 ∷ b'z'
    ∷ b'x' ∷ b'c' ∷ b'v' ∷ b'b' ∷ b'n' ∷ b'm' ∷ b',' ∷ b'.' ∷ b'/' ∷ 0 ∷ b'*' ∷ 0 ∷ b' ' ∷ []

pub map_shift : List ℕ
map_shift =
    0 ∷ 27 ∷ b'!' ∷ b'@' ∷ b'#' ∷ b'$' ∷ b'%' ∷ b'^' ∷ b'&' ∷ b'*' ∷ b'(' ∷ b')' ∷ b'_' ∷ b'+' ∷ 8
    ∷ 9 ∷ b'Q' ∷ b'W' ∷ b'E' ∷ b'R' ∷ b'T' ∷ b'Y' ∷ b'U' ∷ b'I' ∷ b'O' ∷ b'P' ∷ b'{' ∷ b'}' ∷ b'|'
    ∷ 0 ∷ b'A' ∷ b'S' ∷ b'D' ∷ b'F' ∷ b'G' ∷ b'H' ∷ b'J' ∷ b'K' ∷ b'L' ∷ b':' ∷ 34 ∷ b'~' ∷ 0 ∷ b'|'
    ∷ b'Z' ∷ b'X' ∷ b'C' ∷ b'V' ∷ b'B' ∷ b'N' ∷ b'M' ∷ b'<' ∷ b'>' ∷ b'?' ∷ 0 ∷ b'*' ∷ 0 ∷ b' ' ∷ []

pub is_letter : ℕ → Bool
is_letter sc =
    leb 0x10 sc && leb sc 0x19 || leb 0x1E sc && leb sc 0x26 || leb 0x2C sc && leb sc 0x32

abbrev pub xor : Bool → Bool → Bool
xor true b = not b
xor false b = b

pub scancode_to_ascii : Keyboard → ℕ → ℕ
scancode_to_ascii k sc =
    let sh = k.shift_l || k.shift_r in
    let shifted = if is_letter sc then xor k.caps sh else sh in
    if sc == 0x1C
    then 10
    else if sc == 0x0E
    then 8
    else if ltb sc 128
    then get_or (if shifted then map_shift else map) sc 0
    else 0

pub keyboard_init : Keyboard → Keyboard
keyboard_init k = record {
  ring = k.ring;
  head = 0;
  tail = 0;
  shift_l = false;
  shift_r = false;
  caps = false;
  e0_pending = false;
}

-- A key that finds the ring full is dropped.
pub push_key : ℕ → Keyboard → Keyboard
push_key key k =
    let n = (k.head + 1) % buf_size in
    if n == k.tail then k else record k { ring = set k.ring k.head key; head = n }

pub getkey_nonblock : Keyboard → ℤ × Keyboard
getkey_nonblock k =
    if k.head == k.tail
    then (minus 1, k)
    else (pos (get_or k.ring k.tail 0), record k { tail = (k.tail + 1) % buf_size })

pub getchar_nonblock : Keyboard → ℤ × Keyboard
getchar_nonblock k =
    let (key, k') = getkey_nonblock k in
    elim key [ negsuc n ↦ (minus 1, k') | pos n ↦ if ltb n 256 then (pos n, k') else (minus 1, k') ]

-- The code that an extended key pushes, or 0.
pub extended_key : ℕ → ℕ
extended_key code =
    if code == 0x4B
    then kbd_left
    else if code == 0x4D
    then kbd_right
    else if code == 0x48
    then kbd_up
    else if code == 0x50
    then kbd_down
    else if code == 0x47
    then kbd_home
    else if code == 0x4F
    then kbd_end
    else if code == 0x53
    then kbd_del
    else 0

pub key_released : ℕ → Keyboard → Keyboard
key_released code k =
    if code == 0x2A
    then record k { shift_l = false }
    else if code == 0x36
    then record k { shift_r = false }
    else k

pub key_pressed : ℕ → Keyboard → Keyboard
key_pressed code k =
    let ch = scancode_to_ascii k code in
    if code == 0x2A
    then record k { shift_l = true }
    else (if code == 0x36
        then record k { shift_r = true }
        else (if code == 0x3A
            then record k { caps = not k.caps }
            else (if code == 0x1C then push_key 10 k else if ch == 0 then k else push_key ch k)))

-- `keyboard_irq_handler` on the scan code that it reads.
pub irq_handler : ℕ → Keyboard → Keyboard
irq_handler sc k =
    let release = leb 128 (sc % 256) in
    let code = sc % 128 in
    let plain = record k { e0_pending = false } in
    if sc == 0xE0
    then record k { e0_pending = true }
    else (if k.e0_pending
        then (if release || extended_key code == 0
            then plain
            else push_key (extended_key code) plain)
        else if release
        then key_released code k
        else key_pressed code k)
