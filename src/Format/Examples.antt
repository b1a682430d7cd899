-- ===== src/Format/Examples.antt =====
-- Sizes as formatBytes shows them, those of web/src/utils/format.test.ts among them.
use omni_store.Common.{◌-◌, ◌*◌, ◌^◌, ◌≡◌, refl}
use omni_store.Uri.Bytes.{codes}
use omni_store.Uri.Decimal.{decimal}
use omni_store.Format.{format_bytes}
use omni_store.Format.Sizes.{ShowsSize, format_bytes-ShowsSize}

format_bytes-ShowsSize_example : ShowsSize 1536 (format_bytes 1536)
format_bytes-ShowsSize_example = format_bytes-ShowsSize 1536

small_sizes : (format_bytes 0 ≡ codes "0 B") × (format_bytes 1023 ≡ codes "1023 B")
unfolding format_bytes decimal
small_sizes = (refl, refl)

large_sizes :
    (format_bytes 1536 ≡ codes "1.5 KB")
    × (format_bytes (100 * 1024) ≡ codes "100 KB")
    × (format_bytes (1024 ^ 2) ≡ codes "1.0 MB")
    × (format_bytes (1024 ^ 4) ≡ codes "1.0 TB")
unfolding format_bytes decimal
large_sizes = (refl, refl, refl, refl)

-- The byte before a megabyte rounds up to 1024 KB, and 99.96 KB to 100.0 KB.
rounded_up :
    (format_bytes (1024 ^ 2 - 1) ≡ codes "1024 KB") × (format_bytes 102359 ≡ codes "100.0 KB")
unfolding format_bytes decimal
rounded_up = (refl, refl)
