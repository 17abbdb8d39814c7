-- ===== src/Frame/Contents.antt =====
-- The buffer seen as the list of its pending bytes.
use highp_mmorpg.Prelude.{
  ℕ, ◌+◌, ◌-◌, ◌^◌, ◌≤◌, ◌<◌, ◌≡◌, sym, ◌∙◌, ◌⊎◌, inl, inr, true, false, List, ◌++◌, arith, leb,
  Bool-cases, length, take, drop, length-append, length-take, length-drop, append_assoc,
  take-append_eq, drop-take, drop_all,
}
use highp_mmorpg.Frame.{FrameBuffer, copy_at, move_front, append, contents, consume}

-- The bytes fit the array, and the array is small enough that no `size_t` sum wraps.
pub record IsValid (f : FrameBuffer) : Type 0 where
  pub within : f.len ≤ length f.buf
  pub small : length f.buf < 2 ^ 32

pub length-contents : (f : FrameBuffer) → IsValid f → length (contents f) ≡ f.len
unfolding contents
length-contents f v = omega (arith, length-take f.len f.buf)

pub contents-copy_at :
    (buf : List ℕ) (n : ℕ) (bytes : List ℕ)
    → n ≤ length buf
    → take (n + length bytes) (copy_at buf n bytes) ≡ take n buf ++ bytes
contents-copy_at buf n bytes h =
    rw (← append_assoc (take n buf) bytes (drop (n + length bytes) buf)) (
      take-append_eq (n + length bytes) (take n buf ++ bytes) _
        (omega (arith, length-append (take n buf) bytes, length-take n buf)))

pub length-copy_at :
    (buf : List ℕ) (n : ℕ) (bytes : List ℕ)
    → n + length bytes ≤ length buf
    → length (copy_at buf n bytes) ≡ length buf
length-copy_at buf n bytes h = omega (
  arith,
  length-append (take n buf) (bytes ++ drop (n + length bytes) buf),
  length-append bytes (drop (n + length bytes) buf),
  length-take n buf,
  length-drop (n + length bytes) buf,
)

length-move_front :
    (buf : List ℕ) (source count : ℕ)
    → source + count ≤ length buf
    → length (move_front buf source count) ≡ length buf
length-move_front buf source count h = omega (
  arith,
  length-append (take count (drop source buf)) (drop count buf),
  length-take count (drop source buf),
  length-drop source buf,
  length-drop count buf,
)

contents-move_front :
    (buf : List ℕ) (source len : ℕ)
    → source ≤ len
    → len ≤ length buf
    → take (len - source) (move_front buf source (len - source)) ≡ drop source (take len buf)
contents-move_front buf source len h k =
    take-append_eq (len - source) (take (len - source) (drop source buf)) _
      (omega (arith, length-take (len - source) (drop source buf), length-drop source buf))
    ∙ sym (drop-take source len buf)

-- On a valid buffer `Append` takes all of the bytes, behind those that are pending, exactly when
-- they fit the array; else it takes none. The buffer stays valid, and the array keeps its size.
pub append_refines :
    (f : FrameBuffer) (bytes : List ℕ)
    → IsValid f
    → let (taken, f') = append f bytes in
      IsValid f'
      × (length f'.buf ≡ length f.buf)
      × (((f.len + length bytes ≤ length f.buf)
            × (taken ≡ true)
            × (contents f' ≡ contents f ++ bytes))
          ⊎ ((length f.buf < f.len + length bytes) × (taken ≡ false) × (f' ≡ f)))
unfolding append contents
append_refines f bytes v = elim (Bool-cases (leb (f.len + length bytes) (length f.buf))) [
  | inl fits ↦ ground (arith, contents-copy_at f.buf f.len bytes, length-copy_at f.buf f.len bytes)
  | inr over ↦ ground arith
]

-- On a valid buffer `Consume` drops that many of the pending bytes from the front, or all if there
-- are fewer. The buffer stays valid, and the array keeps its size.
pub consume_refines :
    (f : FrameBuffer) (transferred : ℕ)
    → IsValid f
    → let f' = consume f transferred in
      IsValid f' × (length f'.buf ≡ length f.buf) × (contents f' ≡ drop transferred (contents f))
unfolding consume contents
consume_refines f transferred v = ground (
  arith,
  contents-move_front f.buf transferred f.len,
  length-move_front f.buf transferred (f.len - transferred),
  drop_all transferred (take f.len f.buf),
  length-take f.len f.buf,
)
