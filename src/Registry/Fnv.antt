-- ===== src/Registry/Fnv.antt =====
-- `hash/fnv`'s 32-bit FNV-1a, by which both the sharded registry and the worker pool choose a shard.
use Prim.Native.Nat.{bit_xor, ◌^◌}
use wirefan.Prelude.{ℕ, ◌*◌, ◌%◌, ◌≡◌, refl, [], ◌∷◌, Str, codes}

-- `h.Write`: xor with the byte, then multiply, in a `uint32`.
unfoldable pub write_all : ℕ → Str → ℕ
write_all h [] = h
write_all h (b ∷ s) = write_all (bit_xor h b * 16777619 % 2 ^ 32) s

-- `fnv.New32a()`, `Write`, `Sum32`.
unfoldable pub sum32 : Str → ℕ
unfolding write_all
sum32 s = write_all 2166136261 s

sum32_empty : sum32 [] ≡ 0x811c9dc5
unfolding sum32
sum32_empty = refl

sum32_a : sum32 (codes "a") ≡ 0xe40c292c
unfolding sum32
sum32_a = refl

sum32_foobar : sum32 (codes "foobar") ≡ 0xbf9cf968
unfolding sum32
sum32_foobar = refl
