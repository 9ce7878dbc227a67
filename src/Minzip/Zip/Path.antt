-- ===== src/Minzip/Zip/Path.antt =====
-- minzip/Zip.c: targetEntryPath. Allocations are taken to succeed.
use cot_bootable_recovery_to.Base.{
  ℕ, ◌+◌, ◌-◌, ◌*◌, ◌≤◌, ◌<◌, ◌≡◌, ◌∙◌, ◌⊎◌, inl, inr, refl, ap, false, [], ◌∷◌, ◌++◌, Option, none,
  some, Bytes, length, get_or, take, drop, ltb, ◌==◌, if◌then◌else◌, arith, length-append,
  length-drop, take-append, le→ltb,
}

-- `MzPathHelper`. Of the buffer only the characters in front of its NUL are kept; it is NULL as
-- long as `buf_len` is 0.
pub record PathHelper : Type 0 where
  pub target_dir : Bytes
  pub target_dir_len : ℕ
  pub zip_dir_len : ℕ
  pub buf : Bytes
  pub buf_len : ℕ

-- The target directory with a slash at its end.
unfoldable pub with_slash : Bytes → Bytes
with_slash dir =
    if length dir == 0
    then 47 ∷ []
    else (if get_or dir (length dir - 1) 0 == 47 then dir else dir ++ (47 ∷ []))

-- `none` where memcpy would leave the buffer. The length of what is copied is the difference of two
-- `unsigned int`s: for a name that is shorter than the directory it wraps around to a huge one.
unfoldable pub target_entry_path : PathHelper → Bytes → Option (PathHelper × Bytes)
target_entry_path h name =
    let need = h.target_dir_len + 1 + (length name - h.zip_dir_len) + 1 in
    let buf_len = if ltb h.buf_len need then need * 2 else h.buf_len in
    let front = if h.buf_len == 0 then with_slash h.target_dir else take h.target_dir_len h.buf in
    let path = front ++ drop h.zip_dir_len name in
    if ltb (length name) h.zip_dir_len
    then none
    else if ltb buf_len (length path + 1)
    then none
    else some (record h { target_dir_len = length front; buf = path; buf_len = buf_len }, path)

-- The helper before its first use or after a use: then the buffer begins with the directory.
pub record IsHelper (dir : Bytes) (zip_len : ℕ) (h : PathHelper) : Type 0 where
  pub target : h.target_dir ≡ dir
  pub zip_dir : h.zip_dir_len ≡ zip_len
  pub front :
      ((h.target_dir_len ≡ length dir) × (h.buf_len ≡ 0))
      ⊎ ((h.target_dir_len ≡ length (with_slash dir))
          × (take h.target_dir_len h.buf ≡ with_slash dir)
          × (0 < h.buf_len))

with_slash_bounds :
    (dir : Bytes) → (0 < length (with_slash dir)) × (length (with_slash dir) ≤ length dir + 1)
unfolding with_slash
with_slash_bounds dir = let l = length-append dir (47 ∷ []) in (ground arith, ground arith)

-- What a use of the helper gives.
pub record Targeted (dir : Bytes) (zip_len : ℕ) (h : PathHelper) (name : Bytes) : Type 0 where
  pub next : PathHelper
  pub result : target_entry_path h name ≡ some (next, with_slash dir ++ drop zip_len name)
  pub again : IsHelper dir zip_len next

module _ (h : PathHelper) (name : Bytes) where
  abbrev need : ℕ
  need = h.target_dir_len + 1 + (length name - h.zip_dir_len) + 1

  abbrev grown : ℕ
  grown = if ltb h.buf_len need then need * 2 else h.buf_len

  grown_lem : need ≤ grown
  grown_lem = ground arith

  target_entry_path-front :
      (front : Bytes)
      → (if h.buf_len == 0 then with_slash h.target_dir else take h.target_dir_len h.buf) ≡ front
      → length front ≤ h.target_dir_len + 1
      → h.zip_dir_len ≤ length name
      → target_entry_path h name
        ≡ some (
          record h {
            target_dir_len = length front;
            buf = front ++ drop h.zip_dir_len name;
            buf_len = grown;
          },
          front ++ drop h.zip_dir_len name,
        )
  unfolding target_entry_path
  target_entry_path-front front e l k =
      let n = length-append front (drop h.zip_dir_len name) in
      let d = length-drop h.zip_dir_len name in
      let fits : ltb grown (length (front ++ drop h.zip_dir_len name) + 1) ≡ false =
        le→ltb grown _ (omega (arith, grown_lem, n, d, l)) in
      let long : ltb (length name) h.zip_dir_len ≡ false = le→ltb (length name) h.zip_dir_len k in
      rw (e, long, fits)

-- For a name that is at least as long as the directory of the archive, targetEntryPath with a helper
-- before its first use or after a use gives the target directory, a slash, and the entry's path
-- without the directory of the archive, does not write past its buffer, and leaves a helper that can
-- be used again.
pub target_entry_path_lem :
    (dir : Bytes) (zip_len : ℕ) (h : PathHelper) (name : Bytes)
    → IsHelper dir zip_len h
    → zip_len ≤ length name
    → Targeted dir zip_len h name
target_entry_path_lem dir zip_len h name v long =
    let (_, short) = with_slash_bounds dir in
    elim v.front [
      | inl (len, fresh) ↦
          let e : (if h.buf_len == 0 then with_slash h.target_dir else take h.target_dir_len h.buf)
              ≡ with_slash dir =
            rw (fresh, v.target) in
          next e (omega (arith, short))
      | inr (len, kept, used) ↦ next (used_front used ∙ kept) (omega arith)
    ]
  where
    next :
        (if h.buf_len == 0 then with_slash h.target_dir else take h.target_dir_len h.buf)
          ≡ with_slash dir
        → length (with_slash dir) ≤ h.target_dir_len + 1
        → Targeted dir zip_len h name
    next e l = record {
      next = _;
      result =
          target_entry_path-front h name (with_slash dir) e l (rw v.zip_dir long)
          ∙ ap (λ n. some (used n, with_slash dir ++ drop n name)) v.zip_dir;
      again = record {
        target = v.target;
        zip_dir = v.zip_dir;
        front = inr (
          refl,
          take-append (with_slash dir) (drop zip_len name),
          omega (arith, grown_lem h name),
        );
      };
    }
      where
        used : ℕ → PathHelper
        used n = record h {
          target_dir_len = length (with_slash dir);
          buf = with_slash dir ++ drop n name;
          buf_len = grown h name;
        }

    used_front :
        0 < h.buf_len
        → (if h.buf_len == 0 then with_slash h.target_dir else take h.target_dir_len h.buf)
          ≡ take h.target_dir_len h.buf
    used_front u = ground arith
