-- ===== src/Block/Tests.antt =====
-- The theorems on kernel/block.c at a disk.
use reta_os.Prelude.{ℕ, some, List, [], ◌∷◌}
use reta_os.Prelude.Int.{pos}
use reta_os.Block.{Device}

abbrev hda : List ℕ
hda = b'h' ∷ b'd' ∷ b'a' ∷ []

abbrev disk : Device
disk = record { name = some hda; read = some (λ lba count. (pos 0, lba ∷ [])) }
