-- ===== src/Format/Vformat/Sizes.antt =====
-- The two calls of r4nv_vformat (src/rm/format.h) by which a caller first asks for the length.
use r4os_driver_nvidia.Base.{
  ℕ, false, suc, ◌≤◌, ◌<◌, ◌≡◌, refl, ◌∙◌, arith, List, [], ◌∷◌, ◌++◌, some, none, ◌==◌, length,
  drop, take_all, pos,
}
use r4os_driver_nvidia.Memory.{Memory}
use r4os_driver_nvidia.Format.Outcome.{ok, VaList}
use r4os_driver_nvidia.Format.Text.{format_limit}
use r4os_driver_nvidia.Format.Output.Document.{shown}
use r4os_driver_nvidia.Format.Expansion.{expansion}
use r4os_driver_nvidia.Format.Vformat.{r4nv_vformat}
use r4os_driver_nvidia.Format.Vformat.Snprintf.{displayed}
use r4os_driver_nvidia.Format.Vformat.Guarantees.{r4nv_vformat-displays}

displayed_whole :
    (t : List ℕ) (c : ℕ) (b : List ℕ)
    → length t < c
    → displayed t c b ≡ t ++ 0 ∷ drop (suc (length t)) b
displayed_whole t c b h =
    let all : shown (length t) c ≡ length t = omega arith in
    let some_room : (c == 0) ≡ false = ground arith in
    rw (some_room, all, take_all (length t) t (omega arith)) refl

null_as_empty :
    (m : Memory) (format : List ℕ) (args : VaList)
    → r4nv_vformat m none 0 (some format) args ≡ r4nv_vformat m (some []) 0 (some format) args
unfolding r4nv_vformat
null_as_empty m format args = refl

-- For a format shorter than 65536 bytes whose expansion is a text: a call with a NULL buffer and no
-- capacity returns the text's length, and a call with a buffer whose capacity is above that length (and
-- at most 65536) returns the same and leaves the whole text with its NUL.
pub r4nv_vformat-sizes :
    (m : Memory) (b : List ℕ) (c : ℕ) (format : List ℕ) (args : VaList) (t : List ℕ)
    → length format < format_limit
    → expansion m format args ≡ ok t
    → length t < c
    → c ≤ length b
    → c ≤ format_limit
    → (r4nv_vformat m none 0 (some format) args
        ≡ ok (record { status = pos (length t); buffer = [] }))
      × (r4nv_vformat m (some b) c (some format) args
          ≡ ok (record { status = pos (length t); buffer = t ++ 0 ∷ drop (suc (length t)) b }))
r4nv_vformat-sizes m b c format args t short e room fits limit = (
  null_as_empty m format args
      ∙ r4nv_vformat-displays m [] 0 format args t (omega arith) (omega arith) short e,
  rw (← displayed_whole t c b room) (r4nv_vformat-displays m b c format args t fits limit short e),
)
