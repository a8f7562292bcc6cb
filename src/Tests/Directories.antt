-- ===== src/Tests/Directories.antt =====
-- A directory with the entries "a" and "ab", and paths.
use demandos.Prelude.{◌≡◌, ◌↔◌, arith, Bytes, refl, true, [], ◌∷◌}
use demandos.Ext2.Structs.{block_size, name_byte}
use demandos.Ext2.Dirent.{name_matches, search_block}
use demandos.Ext2.Dirent.Debug.{AllShort}
use demandos.Ext2.Dirent.Names.{spelled, StartsWith, name_matches-StartsWith}
use demandos.Ext2.Dirent.Walk.{Tiled, end, entry, offsets, lookup, search_block-lookup}
use demandos.Tests.Devices.{bytes_at, counting}

-- Inode 3 by the name "a" in 12 bytes, and inode 4 by the name "ab" in the 1012 that are left.
abbrev pub directory : Bytes
directory = bytes_at (
    (0, 3)
    ∷ (4, 12)
    ∷ (6, 1)
    ∷ (8, 97)
    ∷ (12, 4)
    ∷ (16, 244)
    ∷ (17, 3)
    ∷ (18, 2)
    ∷ (20, 97)
    ∷ (21, 98)
    ∷ [])

pub directory_tiled : Tiled directory 0
directory_tiled =
    entry (omega arith) (omega arith) (omega arith)
      (entry (omega arith) (omega arith) (omega arith) (end refl))

pub directory_short : AllShort directory (offsets directory_tiled)
unfolding AllShort offsets directory_tiled
directory_short = (omega arith, (omega arith, tt))

-- A search for "ab" takes the entry "a".
prefix_matches : name_matches 1 (name_byte directory 0) 0 (97 ∷ 98 ∷ []) ≡ true
unfolding name_matches
prefix_matches = refl

search_block-lookup_example :
    search_block block_size directory 0 (98 ∷ [])
    ≡ lookup directory (98 ∷ []) (offsets directory_tiled)
search_block-lookup_example = search_block-lookup directory directory_tiled (98 ∷ [])

name_matches-StartsWith_example :
    (name_matches 2 counting 5 (5 ∷ 6 ∷ 7 ∷ []) ≡ true)
    ↔ StartsWith (5 ∷ 6 ∷ 7 ∷ []) (spelled 2 counting 5)
name_matches-StartsWith_example =
    name_matches-StartsWith 2 counting 5 (5 ∷ 6 ∷ 7 ∷ []) (λ j h k. omega arith)
