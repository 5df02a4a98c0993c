-- ===== src/Paging/Search.antt =====
-- The search of src/kernel/paging.c for a free frame, which skips the words that are full.
use bless_os.Prelude.{
  ℕ, zero, suc, ◌+◌, ◌*◌, ◌/◌, ◌%◌, ◌^◌, ◌<◌, ◌≤◌, ◌≡◌, ◌≢◌, ◌⊎◌, ltb, refl, sym, ap, ◌∙◌, bit_and,
  arith, ◌==◌, if◌then◌else◌, Bool-cases, Option-cases, inl, inr, Option, none, some, false, true,
}
use bless_os.Prelude.Ram.{Ram}
use bless_os.Paging.{find_in_word, find_in_frames, find_free_frame}
use bless_os.Paging.Bitmap.{bit, bit-tested, bit-full}
use bless_os.Paging.Frames.{taken}

-- The search one frame at a time.
unfoldable pub first_free : (n i : ℕ) → Ram → ℕ
first_free zero i frames = 0xffffffff
first_free (suc n) i frames =
    let rest = first_free n (i + 1) frames in if taken frames i == 0 then i else rest

abbrev or_else : Option ℕ → ℕ → ℕ → ℕ
or_else none base rest = rest
or_else (some k) base rest = base + k

-- The rest of one word.
first_free-find_in_word :
    (r j n i : ℕ) (frames : Ram)
    → j + r ≡ 32
    → first_free (r + n) (32 * i + j) frames
      ≡ or_else (find_in_word r j (frames i)) (32 * i) (first_free n (32 * i + 32) frames)
unfolding first_free find_in_word
first_free-find_in_word zero j n i frames e =
    let rounds : 0 + n ≡ n = omega arith in
    let place : 32 * i + j ≡ 32 * i + 32 = omega arith in rw (rounds, place)
first_free-find_in_word (suc r) j n i frames e =
    let rounds : suc r + n ≡ suc (r + n) = omega arith in
    let word : (32 * i + j) / 32 ≡ i = omega arith in
    let place : (32 * i + j) % 32 ≡ j = omega arith in
    let next : 32 * i + j + 1 ≡ 32 * i + (j + 1) = omega arith in
    rw
      (
        rounds,
        first_free,
        word,
        place,
        bit-tested j (frames i),
        next,
        first_free-find_in_word r (j + 1) n i frames (omega arith),
      )
      (elim (Bool-cases (bit j (frames i) == 0)) [
        | inl free ↦ rw free refl
        | inr used ↦ rw used refl
      ])

find_in_word-full : (r j : ℕ) → j + r ≡ 32 → find_in_word r j 0xffffffff ≡ none
unfolding find_in_word
find_in_word-full zero j e = refl
find_in_word-full (suc r) j e =
    let on : (bit_and 0xffffffff (2 ^ j) == 0) ≡ false =
      bit-tested j 0xffffffff ∙ ground (arith, bit-full j (omega arith)) in
    rw (on, find_in_word) (find_in_word-full r (j + 1) (omega arith))

-- One round of the outer loop, with the test for a full word.
find_in_frames-first_free :
    (rounds i : ℕ) (frames : Ram)
    → find_in_frames rounds i frames ≡ first_free (32 * rounds) (32 * i) frames
unfolding find_in_frames first_free
find_in_frames-first_free zero i frames = refl
find_in_frames-first_free (suc rounds) i frames =
    let count : 32 * suc rounds ≡ 32 + 32 * rounds = omega arith in
    let start : 32 * i ≡ 32 * i + 0 = omega arith in
    let next : 32 * i + 32 ≡ 32 * (i + 1) = omega arith in
    let ih = find_in_frames-first_free rounds (i + 1) frames in
    let word : first_free (32 * suc rounds) (32 * i) frames
        ≡ or_else (find_in_word 32 0 (frames i)) (32 * i) (find_in_frames rounds (i + 1) frames) =
      ap (λ n. first_free n (32 * i) frames) count
      ∙ ap (λ k. first_free (32 + 32 * rounds) k frames) start
      ∙ first_free-find_in_word 32 0 (32 * rounds) i frames refl
      ∙ ap (or_else (find_in_word 32 0 (frames i)) (32 * i))
          (ap (λ k. first_free (32 * rounds) k frames) next ∙ sym ih) in
    rw (word, find_in_frames)
      (elim (Bool-cases (frames i == 0xffffffff)) [
        | inl full ↦
            let e : frames i ≡ 0xffffffff = ground arith in rw (e, find_in_word-full 32 0 refl) refl
        | inr room ↦ rw room (elim (Option-cases (find_in_word 32 0 (frames i))) [
          | inl nothing ↦ rw (nothing, or_else) refl
          | inr (k, got) ↦ rw (got, or_else) (omega arith)
        ])
      ])

-- Skipping the words that are full changes nothing: `find_free_frame` finds what a search one frame
-- at a time finds, over the frames of the whole words.
pub find_free_frame-first_free :
    (nframes : ℕ) (frames : Ram)
    → find_free_frame nframes frames ≡ first_free (32 * (nframes / 32)) 0 frames
unfolding find_free_frame
find_free_frame-first_free nframes frames = find_in_frames-first_free (nframes / 32) 0 frames

first_free-free :
    (n i : ℕ) (frames : Ram)
    → first_free n i frames ≢ 0xffffffff
    → taken frames (first_free n i frames) ≡ 0
unfolding first_free
first_free-free zero i frames ne = absurd (ne refl)
first_free-free (suc n) i frames ne = elim (Bool-cases (taken frames i == 0)) [
  | inl free ↦ rw (free, first_free) (ground arith)
  | inr used ↦
      let goes : first_free (suc n) i frames ≡ first_free n (i + 1) frames =
        rw (used, first_free) refl in
      rw goes (first_free-free n (i + 1) frames (λ e. ne (goes ∙ e)))
]

first_free-below :
    (n i j : ℕ) (frames : Ram) → i ≤ j → j < i + n → j < first_free n i frames → taken frames j ≢ 0
unfolding first_free
first_free-below zero i j frames le lt below = absurd (omega arith)
first_free-below (suc n) i j frames le lt below = elim (Bool-cases (taken frames i == 0)) [
  | inl free ↦
      let stops : first_free (suc n) i frames ≡ i = rw (free, first_free) refl in
      absurd (omega arith)
  | inr used ↦
      let goes : first_free (suc n) i frames ≡ first_free n (i + 1) frames =
        rw (used, first_free) refl in
      elim (Bool-cases (i == j)) [
        | inl same ↦
            let e : i ≡ j = ground arith in
            let on : (taken frames j == 0) ≡ false = rw e at used in ground arith
        | inr later ↦ first_free-below n (i + 1) j frames (ground arith) (omega arith) (omega arith)
      ]
]

first_free-inside :
    (n i : ℕ) (frames : Ram) → first_free n i frames ≢ 0xffffffff → first_free n i frames < i + n
unfolding first_free
first_free-inside zero i frames ne = absurd (ne refl)
first_free-inside (suc n) i frames ne = elim (Bool-cases (taken frames i == 0)) [
  | inl free ↦
      let stops : first_free (suc n) i frames ≡ i = rw (free, first_free) refl in
      omega (arith, stops)
  | inr used ↦
      let goes : first_free (suc n) i frames ≡ first_free n (i + 1) frames =
        rw (used, first_free) refl in
      let rest = first_free-inside n (i + 1) frames (λ e. ne (goes ∙ e)) in
      omega (arith, goes, rest)
]

-- With fewer than 2 ^ 32 frames, either `find_free_frame` answers -1, or it finds a frame within the
-- whole words of the bitmap, and that frame is free. In both cases any frame `j` within those words is
-- taken, unless it is the one that is found or stands behind it: with -1 every frame is taken.
pub find_free_frame-lowest :
    (nframes j : ℕ) (frames : Ram)
    → nframes < 2 ^ 32
    → ((find_free_frame nframes frames ≡ 0xffffffff)
        ⊎ ((find_free_frame nframes frames < 32 * (nframes / 32))
            × (taken frames (find_free_frame nframes frames) ≡ 0)))
      × ((32 * (nframes / 32) ≤ j) ⊎ ((find_free_frame nframes frames ≤ j) ⊎ (taken frames j ≢ 0)))
find_free_frame-lowest nframes j frames small =
    let n = 32 * (nframes / 32) in
    let same = find_free_frame-first_free nframes frames in
    (
      elim (Bool-cases (find_free_frame nframes frames == 0xffffffff)) [
        | inl nothing ↦ inl (ground (arith, nothing))
        | inr found ↦
            let ne : first_free n 0 frames ≢ 0xffffffff = ground (arith, found, same) in
            inr (
              omega (arith, same, first_free-inside n 0 frames ne),
              ap (taken frames) same ∙ first_free-free n 0 frames ne,
            )
      ],
      elim (Bool-cases (ltb j n)) [
        | inr outside ↦ inl (ground (arith, outside))
        | inl inside ↦ inr (elim (Bool-cases (ltb j (find_free_frame nframes frames))) [
          | inr behind ↦ inl (ground (arith, behind))
          | inl below ↦ inr (
              first_free-below n 0 j frames (omega arith) (ground (arith, inside))
                (ground (arith, below, same)))
        ])
      ],
    )

first_free-is :
    (m i n : ℕ) (frames : Ram)
    → i ≤ n
    → n < i + m
    → ((j : ℕ) → j < n → taken frames j ≢ 0)
    → taken frames n ≡ 0
    → first_free m i frames ≡ n
unfolding first_free
first_free-is zero i n frames le lt used free = absurd (omega arith)
first_free-is (suc m) i n frames le lt used free = elim (Bool-cases (i == n)) [
  | inl here ↦
      let e : i ≡ n = ground arith in
      let test : (taken frames i == 0) ≡ true = rw e (ground arith) in rw (test, first_free) e
  | inr later ↦
      let below : i < n = ground arith in
      let test : (taken frames i == 0) ≡ false = ground (arith, used i below) in
      rw (test, first_free) (first_free-is m (i + 1) n frames (omega arith) (omega arith) used free)
]

-- The frame that is free and has none free before it is the one that is found.
pub find_free_frame-is :
    (nframes n : ℕ) (frames : Ram)
    → n < 32 * (nframes / 32)
    → ((j : ℕ) → j < n → taken frames j ≢ 0)
    → taken frames n ≡ 0
    → find_free_frame nframes frames ≡ n
find_free_frame-is nframes n frames lt used free =
    find_free_frame-first_free nframes frames
    ∙ first_free-is (32 * (nframes / 32)) 0 n frames (omega arith) (omega arith) used free

first_free-none :
    (m i : ℕ) (frames : Ram)
    → ((j : ℕ) → j < i + m → taken frames j ≢ 0)
    → first_free m i frames ≡ 0xffffffff
unfolding first_free
first_free-none zero i frames used = refl
first_free-none (suc m) i frames used =
    let test : (taken frames i == 0) ≡ false = ground (arith, used i (omega arith)) in
    rw (test, first_free) (first_free-none m (i + 1) frames (λ j lt. used j (omega arith)))

-- With every frame of the bitmap taken nothing is found.
pub find_free_frame-none :
    (nframes : ℕ) (frames : Ram)
    → ((j : ℕ) → j < 32 * (nframes / 32) → taken frames j ≢ 0)
    → find_free_frame nframes frames ≡ 0xffffffff
find_free_frame-none nframes frames used =
    find_free_frame-first_free nframes frames
    ∙ first_free-none (32 * (nframes / 32)) 0 frames (λ j lt. used j (omega arith))
