-- ===== src/Examples.antt =====
-- Runs of the storage operations on an environment in memory, at concrete contents.
mod Timers
mod Pipelines
mod Scores
mod Processes
mod Members
mod Connections
pub mod Handlers
mod Isolation
use keyp.Base.{ℕ, ◌≡◌, ◌<◌, ◌⊎◌, inl, refl, arith, none, some, List, [], ◌∷◌, ◌++◌}
use keyp.Base.{set, true, false, ◌==◌, ◌&&◌, ◌↔◌, if◌then◌else◌}
use keyp.Bytes.{Bytes, codes}
use keyp.Int64.{pos, negsuc, of_ℤ}
use keyp.Decimal.{format_int64, parse_int64}
use keyp.Domain.{Context, not_found, key_not_found, not_integer}
use keyp.Lmdb.{ok, err}
use keyp.Lmdb.Memory.{memory, Contents, memory-IsStore, memory-IsReliable, memory-IsCursor}
unfoldable use keyp.Lmdb.Memory.{found}
unfoldable use keyp.Dict.{lookup}
unfoldable use keyp.Bytes.{bytes_eq}
use keyp.Storage.{Client}
unfoldable use keyp.Storage.Lists.{is_list_data}
use keyp.Storage.Lists.Format.{encode_list, IsStorable}
use keyp.Storage.Lists.Bounds.{range}
use keyp.Storage.Lists.Index.{place}
use keyp.Storage.Lists.Check.{is_list_data_iff}
use keyp.Storage.ListCommands.{rpush, lpush, lpop, rpop, lset, lindex}
use keyp.Storage.ListCommands.Ready.{IsReady}
use keyp.Storage.ListCommands.Pushes.{rpush_refines, lpush_refines, push_rejects, Updates, Differs}
use keyp.Storage.ListCommands.Reads.{lindex_refines}
use keyp.Storage.ListCommands.Pops.{lpop_refines, rpop_refines, lset_refines}
use keyp.Storage.Strings.{get, del, append, exists, flush_all}
use keyp.Storage.Strings
use keyp.Storage.Strings.Refine.{
  answer_for, get_refines, exists_refines, set_refines, append_refines,
}
use keyp.Storage.Strings.Removal.{count_present, is_ok, member, del_refines, flush_all_empties}
use keyp.Storage.Counter.{integer_of, incr_by, decr_by}
use keyp.Storage.Counter.Refine.{incr_by_refines, decr_by-incr_by}

abbrev ctx : Context
ctx = record { db = some 0; id = some 7; done = λ i. none }

abbrev key : Bytes
key = codes "k"

abbrev two : List Bytes
two = codes "a" ∷ codes "bc" ∷ []

abbrev contents : Contents
contents = ((1, key), encode_list two) ∷ []

abbrev holding : Contents → Client memory
holding t = record { env = t; dbi = (0, 1) ∷ []; ttl = []; timers = []; next_timer = 0 }

ready : (t : Contents) → IsReady memory ctx key (holding t) 1
unfolding lookup
ready t = record {
  live = λ i. refl;
  opened = refl;
  key_given = omega arith;
  key_short = omega arith;
}

two-IsStorable : IsStorable two
two-IsStorable = record { count = omega arith; items = (omega arith, (omega arith, tt)) }

abbrev one : Bytes → List Bytes
one x = x ∷ []

stored_two : memory.get contents 1 key ≡ ok (encode_list two)
unfolding found lookup bytes_eq
stored_two = refl

rpush_refines_example :
    (t : Contents) × (rpush memory ctx key (one (codes "d")) (holding contents) ≡ (holding t, 3))
    × Updates memory contents 1 key (two ++ one (codes "d")) t
rpush_refines_example =
    rpush_refines memory-IsStore memory-IsReliable ctx key (holding contents) 1 two (codes "d") []
      (ready contents) (inl stored_two) two-IsStorable (omega arith)

lpush_refines_example :
    (t : Contents) × (lpush memory ctx key (codes "d" ∷ codes "e" ∷ []) (holding contents)
      ≡ (holding t, 4))
    × Updates memory contents 1 key (codes "e" ∷ codes "d" ∷ two) t
lpush_refines_example =
    lpush_refines memory-IsStore memory-IsReliable ctx key (holding contents) 1 two (codes "d")
      (one (codes "e")) (ready contents) (inl stored_two) two-IsStorable (omega arith)

abbrev text_contents : Contents
text_contents = ((1, key), codes "12") ∷ []

stored_text : memory.get text_contents 1 key ≡ ok (codes "12")
unfolding found lookup bytes_eq
stored_text = refl

text_is_no_list : is_list_data (codes "12") ≡ false
unfolding is_list_data
text_is_no_list = refl

lpop_refines_example :
    (t : Contents) × (lpop memory ctx key (holding contents) ≡ (holding t, ok (codes "a")))
    × Updates memory contents 1 key (one (codes "bc")) t
lpop_refines_example =
    lpop_refines memory-IsStore memory-IsReliable ctx key (holding contents) 1 (codes "a")
      (one (codes "bc")) (ready contents) stored_two two-IsStorable

rpop_refines_example :
    (t : Contents) × (rpop memory ctx key (holding contents) ≡ (holding t, ok (codes "bc")))
    × Updates memory contents 1 key (one (codes "a")) t
rpop_refines_example =
    rpop_refines memory-IsStore memory-IsReliable ctx key (holding contents) 1 (one (codes "a"))
      (codes "bc") (ready contents) stored_two two-IsStorable

lset_refines_example :
    ((place 2 (negsuc 0) < 2)
      × (t : Contents) × (lset memory ctx key (of_ℤ (negsuc 0)) (codes "z") (holding contents)
          ≡ (holding t, none))
      × Updates memory contents 1 key (set two (place 2 (negsuc 0)) (codes "z")) t)
    ⊎ ((place 2 (negsuc 0) ≡ 2)
        × (lset memory ctx key (of_ℤ (negsuc 0)) (codes "z") (holding contents)
            ≡ (holding contents, some key_not_found)))
lset_refines_example =
    lset_refines memory-IsStore memory-IsReliable ctx key (holding contents) 1 two (negsuc 0)
      (codes "z") (ready contents) stored_two two-IsStorable (omega arith)

lindex_refines_example :
    lindex memory ctx key (of_ℤ (negsuc 1)) (holding contents) ≡ (holding contents, ok (codes "a"))
lindex_refines_example =
    lindex_refines memory-IsReliable ctx key (holding contents) 1 two (negsuc 1) (ready contents)
      (inl stored_two) two-IsStorable (omega arith)

get_refines_example :
    get memory ctx key (holding text_contents)
    ≡ (holding text_contents, answer_for (memory.get text_contents 1 key))
get_refines_example =
    get_refines memory-IsReliable ctx key (holding text_contents) 1 (ready text_contents)

append_refines_example :
    (t : Contents) × (append memory ctx key (codes "3") (holding text_contents) ≡ (holding t, 3))
    × Differs memory text_contents 1 key (ok (codes "123")) t
append_refines_example =
    append_refines memory-IsStore memory-IsReliable ctx key (codes "12") (codes "3")
      (holding text_contents) 1 (ready text_contents) (inl stored_text)

del_refines_example :
    (t : Contents) × (del memory ctx (key ∷ codes "x" ∷ key ∷ []) (holding contents) ≡ (
      holding t,
      ok (count_present (λ j. is_ok (memory.get contents 1 j)) (key ∷ codes "x" ∷ key ∷ [])),
    ))
    × ((d' : ℕ) (k' : Bytes)
        → memory.get t d' k' ≡ (
            if d' == 1 && member k' (key ∷ codes "x" ∷ key ∷ [])
            then err not_found
            else memory.get contents d' k'))
del_refines_example =
    del_refines memory-IsStore memory-IsReliable ctx key (codes "x" ∷ key ∷ []) (holding contents) 1
      (ready contents).live (ready contents).opened
      ((omega arith, omega arith), ((omega arith, omega arith), ((omega arith, omega arith), tt)))
      (omega arith)

flush_all_empties_example :
    (t : Contents) × (flush_all memory ctx (holding contents) ≡ (holding t, none))
    × ((k : Bytes) → memory.get t 1 k ≡ err not_found)
    × ((d' : ℕ) (k' : Bytes) → (d' == 1) ≡ false → memory.get t d' k' ≡ memory.get contents d' k')
flush_all_empties_example =
    flush_all_empties memory-IsReliable memory-IsCursor ctx (holding contents) 1
      (ready contents).live (ready contents).opened

counted : memory.get text_contents 1 key ≡ ok (format_int64 12)
unfolding found lookup bytes_eq format_int64
counted = refl

incr_by_refines_example :
    ((t : Contents) × (incr_by memory ctx key 5 (holding text_contents) ≡ (holding t, ok 17))
      × Differs memory text_contents 1 key (ok (format_int64 17)) t)
    × ((t : Contents) × (decr_by memory ctx key 5 (holding text_contents) ≡ (holding t, ok 7))
        × Differs memory text_contents 1 key (ok (format_int64 7)) t)
incr_by_refines_example =
    incr_by_refines memory-IsStore memory-IsReliable ctx key (holding text_contents) 1 12 5
      (ready text_contents) (omega arith) (inl counted)

decr_by-incr_by_example :
    (t : Contents) × (decr_by memory ctx key 5 (incr_by memory ctx key 5 (holding text_contents)).0
      ≡ (holding t, ok 12))
    × (memory.get t 1 key ≡ ok (format_int64 12))
decr_by-incr_by_example =
    decr_by-incr_by memory-IsStore memory-IsReliable ctx key (holding text_contents) 1 12 5
      (ready text_contents) (omega arith) (omega arith) (inl counted)

abbrev list_bytes : Bytes
list_bytes = 1 ∷ 0 ∷ 0 ∷ 0 ∷ 0 ∷ 0 ∷ 0 ∷ 0 ∷ 1 ∷ 0 ∷ 0 ∷ 0 ∷ 97 ∷ []

is_list_data_iff_example :
    (is_list_data list_bytes ≡ true)
    ↔ ((xs : List Bytes) × IsStorable xs × (list_bytes ≡ encode_list xs))
is_list_data_iff_example = is_list_data_iff list_bytes (
  omega arith,
  (
    omega arith,
    (
      omega arith,
      (
        omega arith,
        (
          omega arith,
          (
            omega arith,
            (
              omega arith,
              (
                omega arith,
                (omega arith, (omega arith, (omega arith, (omega arith, (omega arith, tt))))),
              ),
            ),
          ),
        ),
      ),
    ),
  ),
)
