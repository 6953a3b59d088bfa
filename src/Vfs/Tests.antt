-- ===== src/Vfs/Tests.antt =====
-- The theorems on kernel/vfs.c at a root directory with a file "f" at address 16 and a link "l" at
-- address 32, where the file is also open at descriptor 0.
use reta_os.Prelude.{
  ℕ, ◌≡◌, refl, ◌+◌, inl, inr, Bool, false, ◌||◌, Option, none, some, List, [], ◌∷◌, ◌++◌, arith,
  Bool-cases, ◌==◌, if◌then◌else◌, replicate,
}
use reta_os.Prelude.Int.{ℤ, pos, minus}
use reta_os.Text.{strcmp, strlen, strspn, strpbrk, strtok_r, tokens_from, accepts, up_to}
use reta_os.Vfs.Node.{Node, Vfs, Ptr, zero_node, no_ops, o_append, s_iflnk, ebadf, eacces}
use reta_os.Vfs.Lookup.{found, failed, lookup, walk, components, step_down, find_child, slash}
use reta_os.Vfs.Lookup.Walks.{no_links}
use reta_os.Vfs.Lookup.Reach.{Agree, IsClosed, Points}
use reta_os.Vfs.Create.{create}
use reta_os.Vfs.Create.Lost.{Fresh, UnseenAt, create-unseen}
use reta_os.Vfs.Files.{read, write, open_file, put_file, free_slot, access_error}
use reta_os.Vfs.Files.Buffered.{Buffered, read-parts}
use reta_os.Vfs.Files.Writing.{Unwritable, open_file-write}
use reta_os.Vfs.Files.Driver.{Finds, open_file-Finds}
use reta_os.Vfs.Files.Opening.{Fails, open_missing-Fails}
use reta_os.Vfs.Dirs.{rmdir}
use reta_os.Initrd.{tar_open, tar_close}
use reta_os.Vfs.Dirs.Removal.{NotLinked, Refused, rmdir-refuses}

abbrev five : List ℕ
five = 1 ∷ 2 ∷ 3 ∷ 4 ∷ 5 ∷ []

abbrev file : Node
file = record zero_node {
  name = b'f' ∷ [];
  size = 5;
  flags = 0o100666 + o_append;
  buffer = some five;
  parent = 0;
}

abbrev link : Node
link = record zero_node { name = b'l' ∷ []; flags = s_iflnk }

abbrev top : Node
top = record zero_node { name = slash; flags = 0o40755; children = 16 ∷ 32 ∷ [] }

abbrev nodes_at : Ptr → Node
nodes_at p = if p == 16 then file else if p == 32 then link else zero_node

abbrev sample : Vfs
sample = record {
  nodes = nodes_at;
  root = top;
  open_files = file ∷ replicate 31 zero_node;
  new_buffer = λ n. some (replicate n 0);
  new_nodes = λ k. 64 + k;
}

abbrev live_at : Ptr → Bool
live_at p = p == 16 || p == 32

sample-IsClosed : IsClosed sample live_at
sample-IsClosed = record { root = ((refl, (refl, tt)), inl refl); nodes = λ p alive. plain p }
  where
    plain : (p : Ptr) → Points live_at (nodes_at p)
    plain p = elim (Bool-cases (p == 16)) [
      | inl e ↦ rw e (tt, inl refl)
      | inr e ↦ elim (Bool-cases (p == 32)) [
        | inl d ↦ rw (e, d) (tt, inl refl)
        | inr d ↦ rw (e, d) (tt, inl refl)
      ]
    ]

sample-Fresh : Fresh sample live_at
sample-Fresh = (refl, refl)

sample-Buffered : Buffered sample 0 file five
sample-Buffered = record {
  range = omega arith;
  slots = refl;
  entry = refl;
  name = refl;
  file = refl;
  no_read = refl;
  bytes = refl;
}

sample-NotLinked : NotLinked sample 4096
sample-NotLinked p = elim (Bool-cases (p == 16)) [
  | inl e ↦ rw e tt
  | inr e ↦ elim (Bool-cases (p == 32)) [ inl d ↦ rw (e, d) tt | inr d ↦ rw (e, d) tt ]
]

read-parts_example :
    let (r, bytes, v') = read sample (pos 0) 2 in
    let (r', bytes', v'') = read v' (pos 0) 9 in
    let (whole, all, end) = read sample (pos 0) (2 + 9) in
    (r ≡ pos 2) × (bytes ++ bytes' ≡ all) × (v'' ≡ end)
read-parts_example =
    read-parts 2 9 sample-Buffered (omega arith) (omega arith) (omega arith) (omega arith)
      (omega arith)

rmdir-refuses_example : Refused sample (rmdir 4 8 sample 4096 (b'/' ∷ b'd' ∷ []))
rmdir-refuses_example = rmdir-refuses 4 8 sample 4096 (b'/' ∷ b'd' ∷ []) sample-NotLinked

create-unseen_example : UnseenAt 4 sample (create 4 sample (b'/' ∷ b'n' ∷ []) 0o666)
create-unseen_example = create-unseen 4 (b'/' ∷ b'n' ∷ []) 0o666 sample-IsClosed sample-Fresh

lookup_missing : lookup 4 sample (b'/' ∷ b'n' ∷ []) ≡ failed 2
unfolding lookup walk components tokens_from strtok_r strlen strspn strpbrk accepts up_to step_down
    find_child strcmp
lookup_missing = refl

open_missing-Fails_example : Fails (open_file 4 sample (b'/' ∷ b'n' ∷ []) 0x102)
open_missing-Fails_example =
    open_missing-Fails 4 (b'/' ∷ b'n' ∷ []) 0x102 2 sample-IsClosed sample-Fresh lookup_missing

walk_to_file : walk sample no_links top ((b'f' ∷ []) ∷ []) ≡ found file
unfolding walk step_down find_child strcmp
walk_to_file = refl

-- Another node in an address that nothing points to.
abbrev with_more : Vfs
with_more = record sample { nodes = λ p. if p == 64 then file else nodes_at p }

with_more-Agree : Agree live_at sample with_more
with_more-Agree = record {
  root = refl;
  nodes = λ p alive. let other : (p == 64) ≡ false = ground (arith, alive) in rw other refl;
}

-- A file with the functions that the initial RAM disk gives to its files.
abbrev plain_file : Node
plain_file = record file {
  flags = 0o100644;
  buffer = none;
  ops = record no_ops {
    read = some (λ offset count. (pos 0, []));
    open_node = some tar_open;
    close_node = some tar_close;
  };
}

abbrev with_plain : Vfs
with_plain = record sample {
  nodes = λ p. if p == 16 then plain_file else zero_node;
  root = record top { children = 16 ∷ [] };
}

plain_file-found : lookup 1 with_plain (b'/' ∷ b'f' ∷ []) ≡ found plain_file
unfolding lookup walk components tokens_from strtok_r strlen strspn strpbrk accepts up_to step_down
    find_child strcmp
plain_file-found = refl

plain_file-Unwritable : Unwritable plain_file 0x801
plain_file-Unwritable = record {
  name = refl;
  file = refl;
  no_write = refl;
  no_append = refl;
  opens = inr (tar_open, refl, refl);
}

open_file-write_example :
    (size : ℕ) × (let end = record plain_file { size = size; position = size } in
      (open_file 1 with_plain (b'/' ∷ b'f' ∷ []) 0x801 ≡ some (pos 1, put_file with_plain 1 end))
      × ((bytes : List ℕ)
          → write (put_file with_plain 1 end) (pos 1) bytes
            ≡ (minus ebadf, put_file with_plain 1 end)))
unfolding free_slot access_error
open_file-write_example =
    open_file-write 1 with_plain (b'/' ∷ b'f' ∷ []) 0x801 1 plain_file plain_file-found
      plain_file-Unwritable refl refl refl

-- A root directory whose `finddir` stores the address 64 for every name.
abbrev driver : List ℕ → ℤ × Option Ptr
driver name = (pos 0, some 64)

abbrev mounted : Vfs
mounted = record sample { root = record top { ops = record no_ops { finddir = some driver } } }

driver-Finds : Finds mounted.root (b'a' ∷ []) (some 64)
unfolding strcmp
driver-Finds = record {
  finddir = driver;
  own = refl;
  finds = refl;
  not_dot = refl;
  not_dots = refl;
}

open_file-Finds_example : open_file 1 mounted (b'/' ∷ b'a' ∷ []) 2 ≡ some (minus eacces, mounted)
unfolding walk components tokens_from strtok_r strlen strspn strpbrk accepts up_to free_slot
open_file-Finds_example =
    open_file-Finds 0 mounted (b'/' ∷ b'a' ∷ []) (b'a' ∷ []) mounted.root [] (some 64) 2 1 refl refl
      driver-Finds refl (omega arith)
