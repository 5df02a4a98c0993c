-- ===== src/Keyboard/Typing.antt =====
-- From scan codes to the screen: do_kb of src/kernel/keyboard.c with the tty and the console behind it.
use bless_os.Prelude.{
  ℕ, ◌<◌, ◌≡◌, refl, ap, sym, ◌∙◌, Option, none, some, List, [], ◌∷◌, ◌++◌, Bool, true, false, ◌==◌,
  ◌&&◌, length, if◌then◌else◌, arith, Bool-cases, inl, inr, bit_and,
}
use mathlib.Core.Path.{ap₂}
use mathlib.Core.List.{append-nil}
use bless_os.CyclicBuffer.{cb_push}
use bless_os.CyclicBuffer.Inv.{held, cb_push-IsValid}
use bless_os.CyclicBuffer.Refine.{queue, length-queue}
use bless_os.Tty.{Tty, Termios}
use bless_os.Tty.Write.{print_all, print_all-append, cb_push-append}
use bless_os.Tty.Echo.{IsReady, echo_of, echo_all, parse_key-echo_all}
use bless_os.Keyboard.{Keyboard, key_char, feed, press, release, pressed, end_of_interrupt, do_kb}
use bless_os.Keyboard.Maps.{KeyType, kt_normal, keytable}
use bless_os.Keyboard.Modifiers.{mode_spec, mode_after-mode_spec, mode_spec-lt}

-- Between two interrupts: the tty's queues are well formed and empty.
pub record IsIdle (kb : Keyboard) : Type 0 where
  pub ready : IsReady kb.tty
  pub read : queue kb.tty.read_queue ≡ []
  pub mode_in : kb.key_mode < 8

abbrev pub is_normal : KeyType → Bool
is_normal kt_normal = true
is_normal _ = false

-- What a scan code shows: only a normal key that is pressed shows anything.
unfoldable pub typed : Termios → ℕ → ℕ → List ℕ
typed t mode s =
    if bit_and s 0x80 == 0 && is_normal (keytable s) then echo_of t (key_char mode s) else []

-- The character goes through the read queue, the tty and the write queue to the console.
feed-echo_of :
    (c : ℕ) {kb : Keyboard}
    → IsIdle kb
    → (kb' : Keyboard) × (feed c kb ≡ some kb')
      × IsIdle kb'
      × (kb'.key_mode ≡ kb.key_mode)
      × (kb'.tty.termios ≡ kb.tty.termios)
      × (kb'.console ≡ print_all (echo_of kb.tty.termios c) kb.console)
unfolding feed echo_all
feed-echo_of c {kb} v =
    let none_held : held kb.tty.read_queue ≡ 0 =
      sym (length-queue kb.tty.read_queue) ∙ ap length v.read in
    let tty₀ : Tty = record kb.tty { read_queue = (cb_push c kb.tty.read_queue).1 } in
    let put = cb_push-append c v.ready.reads (omega arith) ∙ ap (λ q. q ++ (c ∷ [])) v.read in
    let ready : IsReady tty₀ = record {
      reads = cb_push-IsValid v.ready.reads c;
      writes = v.ready.writes;
      written = v.ready.written;
    } in
    let (tty, done, ready', read, same) = parse_key-echo_all {tty = tty₀} kb.console ready in
    let shows =
      ap (λ q. print_all (echo_all kb.tty.termios q) kb.console) put
      ∙ ap (λ q. print_all q kb.console) (append-nil (echo_of kb.tty.termios c)) in
    (
      record kb { tty = tty; console = print_all (echo_of kb.tty.termios c) kb.console },
      rw (done ∙ ap (λ k. some (tty, k)) shows, feed),
      record { ready = ready'; read = read; mode_in = v.mode_in },
      refl,
      same,
      refl,
    )

-- What an interrupt with scan code `s` leaves behind.
abbrev pub Handled : ℕ → Keyboard → Keyboard → Type 0
Handled s kb kb' =
    IsIdle kb'
    × (kb'.key_mode ≡ mode_spec s kb.key_mode)
    × (kb'.tty.termios ≡ kb.tty.termios)
    × (kb'.console ≡ print_all (typed kb.tty.termios kb.key_mode s) kb.console)

pressed-other :
    (t : KeyType) (s : ℕ) (kb : Keyboard)
    → is_normal t ≡ false
    → pressed t s kb ≡ some (record kb { key_mode = press t kb.key_mode })
unfolding pressed
pressed-other kt_normal s kb h = cc
pressed-other _ s kb h = refl

pressed_normal :
    (t : KeyType) (s : ℕ) (kb : Keyboard)
    → is_normal t ≡ true
    → (pressed t s kb ≡ feed (key_char kb.key_mode s) kb) × (press t kb.key_mode ≡ kb.key_mode)
unfolding pressed press
pressed_normal kt_normal s kb h = (refl, refl)
pressed_normal _ s kb h = cc

-- From an idle keyboard, `do_kb` of a scan code below 256 returns and leaves the keyboard idle: the
-- modifiers follow `mode_spec`, the settings are as they were, and the console shows what was
-- typed.
pub do_kb-Handled :
    (s : ℕ) {kb : Keyboard}
    → s < 256
    → IsIdle kb
    → (kb' : Keyboard) × (do_kb s kb ≡ some kb') × Handled s kb kb'
unfolding do_kb typed print_all
do_kb-Handled s {kb} h v =
    let mode = kb.key_mode in
    let follows = mode_after-mode_spec s mode h v.mode_in in
    let mode_in = mode_spec-lt s mode in
    elim (Bool-cases (bit_and s 0x80 == 0)) [
      | inr up ↦
          let moved : release (keytable (bit_and s 0x7f)) mode ≡ mode_spec s mode =
            rw up at follows in
          rw (up, do_kb, typed, moved)
            (
              end_of_interrupt (record kb { key_mode = mode_spec s mode }),
              refl,
              (record { ready = v.ready; read = v.read; mode_in = mode_in }, refl, refl, refl),
            )
      | inl down ↦
          let moved : press (keytable s) mode ≡ mode_spec s mode = rw down at follows in
          elim (Bool-cases (is_normal (keytable s))) [
            | inr other ↦
                rw (down, do_kb, typed, other, pressed-other (keytable s) s kb other, moved)
                  (
                    end_of_interrupt (record kb { key_mode = mode_spec s mode }),
                    refl,
                    (
                      record { ready = v.ready; read = v.read; mode_in = mode_in },
                      refl,
                      refl,
                      refl,
                    ),
                  )
            | inl normal ↦
                let (fed, kept) = pressed_normal (keytable s) s kb normal in
                let (kb', done, idle, same, termios, shows) = feed-echo_of (key_char mode s) v in
                rw (down, do_kb, typed, normal, fed, done)
                  (
                    end_of_interrupt kb',
                    refl,
                    (
                      record { ready = idle.ready; read = idle.read; mode_in = idle.mode_in },
                      same ∙ sym kept ∙ moved,
                      termios,
                      shows,
                    ),
                  )
          ]
    ]

-- Interrupts in a row.
pub do_kbs : List ℕ → Keyboard → Option Keyboard
do_kbs [] kb = some kb
do_kbs (s ∷ ss) kb = elim (do_kb s kb) [ none ↦ none | some kb' ↦ do_kbs ss kb' ]

-- What the keys show one after the other, each under the modifiers that it finds.
pub typed_all : Termios → ℕ → List ℕ → List ℕ
typed_all t mode [] = []
typed_all t mode (s ∷ ss) = typed t mode s ++ typed_all t (mode_spec s mode) ss

abbrev pub AllCodes : List ℕ → Type 0
AllCodes [] = Unit
AllCodes (s ∷ ss) = (s < 256) × AllCodes ss

-- From an idle keyboard, any sequence of scan codes below 256 is handled to the end, leaves the
-- keyboard idle, and prints what its keys show, in order, each under the modifiers that it finds.
pub do_kbs-typed_all :
    (ss : List ℕ) {kb : Keyboard}
    → AllCodes ss
    → IsIdle kb
    → (kb' : Keyboard) × (do_kbs ss kb ≡ some kb')
      × IsIdle kb'
      × (kb'.console ≡ print_all (typed_all kb.tty.termios kb.key_mode ss) kb.console)
unfolding do_kbs typed_all print_all
do_kbs-typed_all [] {kb} h v = (kb, refl, v, refl)
do_kbs-typed_all (s ∷ ss) {kb} h v =
    let (kb₁, done, (idle, mode, termios, shows)) = do_kb-Handled s h.0 v in
    let (kb', rest, idle', shown) = do_kbs-typed_all ss {kb = kb₁} h.1 idle in
    let t = kb.tty.termios in
    let now = typed t kb.key_mode s in
    (
      kb',
      rw (done, do_kbs) rest,
      idle',
      shown
          ∙ ap₂ (λ t' m. print_all (typed_all t' m ss) kb₁.console) termios mode
          ∙ ap (print_all (typed_all t (mode_spec s kb.key_mode) ss)) shows
          ∙ sym (print_all-append now (typed_all t (mode_spec s kb.key_mode) ss) kb.console),
    )
