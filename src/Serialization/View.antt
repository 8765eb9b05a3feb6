-- ===== src/Serialization/View.antt =====
-- serialization/BufferView.h and BufferView.cpp: a range of bytes that another object owns, here the
-- bytes themselves.
use quartz_database_c.Prelude.{
  ℕ, ◌-◌, Bool, Option, List, [], length, take, drop, get_elem?, min, ltb, if◌then◌else◌,
}
use quartz_database_c.Serialization.Buffer.{same_bytes}

abbrev pub BufferView : Type 0
BufferView = List ℕ

-- Nothing where `at` throws.
pub at : BufferView → ℕ → Option ℕ
at view index = get_elem? view index

pub subview : BufferView → ℕ → ℕ → BufferView
subview view offset count =
    if ltb (length view) offset
    then []
    else take (min count (length view - offset)) (drop offset view)

pub slice : BufferView → ℕ → BufferView
slice view offset = if ltb (length view) offset then [] else drop offset view

pub remove_prefix : BufferView → ℕ → BufferView
remove_prefix view n = drop (min n (length view)) view

pub remove_suffix : BufferView → ℕ → BufferView
remove_suffix view n = take (length view - min n (length view)) view

pub equals : BufferView → BufferView → Bool
equals a b = same_bytes a b
