-- ===== src/Vfs/Files/Rejects.antt =====
-- The functions of kernel/vfs.c on descriptors that are not open.
use reta_os.Prelude.{
  ℕ, ◌≡◌, refl, ◌≤◌, ◌<◌, ◌==◌, ◌⊎◌, true, false, none, List, [], arith, leb, get_or, Bool-cases,
  inl, inr,
}
use reta_os.Prelude.Int.{ℤ, pos, negsuc, minus}
use reta_os.Vfs.Node.{
  Vfs, Node, named, max_open_files, zero_node, ebadf, eacces, ft_dir, any_of, o_rdonly, o_wronly,
  o_rdwr, o_accmode,
}
use Prim.Native.Nat.{bit_and}
use reta_os.Vfs.Files.{descriptor, read, write, close, lseek, size, access_error, open_node}

-- A number that is negative, too large, or that of a free slot.
unfoldable pub NotOpen : Vfs → ℤ → Type 0
NotOpen v (negsuc n) = Unit {0}
NotOpen v (pos fd) = (max_open_files ≤ fd) ⊎ (named (get_or v.open_files fd zero_node) ≡ false)

descriptor-NotOpen : (v : Vfs) (fd : ℤ) → NotOpen v fd → descriptor v fd ≡ none
unfolding descriptor NotOpen
descriptor-NotOpen v (negsuc n) bad = refl
descriptor-NotOpen v (pos fd) (inl beyond) =
    let out : leb max_open_files fd ≡ true = ground (arith, beyond) in rw out refl
descriptor-NotOpen v (pos fd) (inr free) = elim (Bool-cases (leb max_open_files fd)) [
  | inl e ↦ rw (free, e) refl
  | inr e ↦ rw (free, e) refl
]

-- On a descriptor that is negative, too large or not open, `vfs_read`, `vfs_write`, `vfs_lseek`,
-- `vfs_size` and `vfs_close` return -EBADF, and none of them changes anything.
NotOpen-rejects :
    (v : Vfs) (fd : ℤ) (count : ℕ) (bytes : List ℕ) (offset : ℤ) (whence : ℕ)
    → NotOpen v fd
    → (read v fd count ≡ (minus ebadf, [], v))
      × (write v fd bytes ≡ (minus ebadf, v))
      × (lseek v fd offset whence ≡ (minus ebadf, v))
      × (size v fd ≡ minus ebadf)
      × (close v fd ≡ (minus ebadf, v))
unfolding read write lseek size close
NotOpen-rejects v fd count bytes offset whence bad =
    let e = descriptor-NotOpen v fd bad in
    (
      rw (read, e) refl,
      rw (write, e) refl,
      rw (lseek, e) refl,
      rw (size, e) refl,
      rw (close, e) refl,
    )

-- A node that is no directory and has none of the permission bits that `vfs_open` asks for.
access_error-no_bits :
    (node_flags flags : ℕ)
    → any_of node_flags ft_dir ≡ false
    → any_of node_flags 0o444 ≡ false
    → any_of node_flags 0o222 ≡ false
    → any_of node_flags 0o666 ≡ false
    → bit_and flags o_accmode < 3
    → access_error node_flags flags ≡ eacces
unfolding access_error
access_error-no_bits node_flags flags file no_read no_write neither mode =
    elim (Bool-cases (bit_and flags o_accmode == o_rdonly)) [
      | inl r ↦ rw (file, r, no_read) refl
      | inr not_r ↦ elim (Bool-cases (bit_and flags o_accmode == o_wronly)) [
        | inl w ↦ rw (file, not_r, w, no_write) refl
        | inr not_w ↦
            let rdwr : (bit_and flags o_accmode == o_rdwr) ≡ true =
              ground (arith, not_r, not_w, mode) in
            rw (file, not_r, not_w, rdwr, neither) refl
      ]
    ]

pub open_node-no_bits :
    (v : Vfs) (fd flags : ℕ) (node : Node)
    → any_of node.flags ft_dir ≡ false
    → any_of node.flags 0o444 ≡ false
    → any_of node.flags 0o222 ≡ false
    → any_of node.flags 0o666 ≡ false
    → bit_and flags o_accmode < 3
    → open_node v fd flags node ≡ (minus eacces, v)
unfolding open_node
open_node-no_bits v fd flags node file no_read no_write neither mode =
    rw (access_error-no_bits node.flags flags file no_read no_write neither mode) refl
