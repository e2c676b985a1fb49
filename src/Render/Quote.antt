-- ===== src/Render/Quote.antt =====
-- internal/render/render.go: a value as a scalar of the rendered file.
pub mod Laws
use otlp_collector_oidc.Prelude.{Text, bytes, List, [], ◌∷◌, ◌++◌, if◌then◌else◌, eqb, join}
use otlp_collector_oidc.Prelude.Result.{Result, ok, err, ◌>>=◌}
use otlp_collector_oidc.Render.SelfTelemetry.{double_dollars}

-- `strings.TrimSuffix(s, "\n")`.
unfoldable pub trim_newline : Text → Text
trim_newline [] = []
trim_newline (c ∷ []) = if eqb c b'\n' then [] else c ∷ []
trim_newline (c ∷ d ∷ s) = c ∷ trim_newline (d ∷ s)

quoted_text : Result Text → Result Text
quoted_text (err e) = err (bytes "quoting a value: " ++ e)
quoted_text (ok text) = ok (double_dollars (trim_newline text))

-- `encode` is json.Encoder's Encode without the escapes of HTML.
module _ (encode : Text → Result Text) where
  -- `quote`, of what fmt.Sprint writes of the value.
  unfoldable pub quote : Text → Result Text
  unfolding quoted_text
  quote v = quoted_text (encode v)

  -- The loop over the items.
  unfoldable pub quote_items : List Text → Result (List Text)
  quote_items [] = ok []
  quote_items (item ∷ items) = quote item >>= λ q. quote_items items >>= λ quoted. ok (q ∷ quoted)

  unfoldable pub quote_list : List Text → Result Text
  quote_list items =
      quote_items items >>= λ quoted. ok (b'[' ∷ (join quoted (bytes ", ") ++ b']' ∷ []))
