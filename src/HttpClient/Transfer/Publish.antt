-- ===== src/HttpClient/Transfer/Publish.antt =====
-- What a download of internal/httpclient/client.go leaves on the disk, whichever of the system's
-- operations fail.
use mcp_grand_lyon.Base.{
  ℕ, suc, String, ◌≡◌, ◌≢◌, ◌≤◌, ◌<◌, ◌⊎◌, true, false, Option, none, some, arith, length,
  length-take, eq_iff,
}
use mcp_grand_lyon.HttpClient.Types.{ContextError, HttpError, Stream}
use mcp_grand_lyon.HttpClient.Transfer.{Disk, Files, write_download}
use mcp_grand_lyon.HttpClient.Transfer.Bounds.{read_limit-exact}

module _ (ctx : Option ContextError) (disk : Disk) (body : Stream) (temporary dest : String)
    (max_bytes : ℕ) (fs : Files) (apart : temporary ≢ dest) (fresh : fs temporary ≡ none) where
  -- Where the temporary name is not taken and is not the destination, and the limit is below the
  -- largest int64: a download that succeeds
  -- puts the whole body, which was not cut short and is within the limit, at its destination, and
  -- leaves every file other than the destination as it was, the temporary one among them.
  pub write_download-published :
      (other : String)
      → max_bytes < 9_223_372_036_854_775_807
      → other ≢ dest
      → (write_download ctx disk body temporary dest max_bytes fs).1 ≡ none
      → let fs' = (write_download ctx disk body temporary dest max_bytes fs).0 in
        (fs' dest ≡ some body.bytes)
        × (body.broken ≡ false)
        × (length body.bytes ≤ max_bytes)
        × (fs' other ≡ fs other)
  unfolding write_download
  write_download-published other small ne h = ground (
    arith,
    read_limit-exact max_bytes small,
    eq_iff dest dest,
    eq_iff other dest,
    eq_iff other temporary,
    length-take (suc max_bytes) body.bytes,
  )

  -- Where the temporary name is not taken and is not the destination: a download that fails, at
  -- whatever step, leaves every file as it was, the destination and the temporary name among them,
  -- where the removal of the temporary file succeeds; where it does not, every file but the
  -- temporary one.
  pub write_download_failed :
      (other : String) (e : HttpError)
      → (write_download ctx disk body temporary dest max_bytes fs).1 ≡ some e
      → (other ≢ temporary) ⊎ (disk.removed ≡ true)
      → (write_download ctx disk body temporary dest max_bytes fs).0 other ≡ fs other
  unfolding write_download
  write_download_failed other e h r = ground (arith, eq_iff other temporary)
