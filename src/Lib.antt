-- ===== src/Lib.antt =====
-- pdn-shield: a service that finds personal data in Russian texts, masks it, keeps what is needed
-- to restore it, and restores it on request.
--
-- Parts and how they interact. A text goes through the pipeline of detectors (internal/pii), which
-- yields spans; spans are resolved so that no two overlap, and reclassified by their context. The
-- engine (internal/engine) runs the pipeline on overlapping windows of a long text, filters the
-- spans, has them masked (internal/mask) and stores a record under an id (internal/store, encrypted
-- by internal/crypto). A system identifies itself at the HTTP layer (internal/httpapi/auth.go), by
-- the configuration (internal/config), and the handlers check its request, have the engine run it
-- and turn its errors into statuses; a chat request is masked, sent to a model gateway, and the
-- answer is restored.
--
-- Files.
--   Common, Common/*: lists, bytes, association lists for Go's maps, `sort.Slice` as an interface
--     (`SortSlice`: a rearrangement, ascending for a strict weak order, of unknown stability; insertion
--     sort fills it), signed integers where an offset may be negative, results.
--   Pii/Types, Pii/Resolve: internal/pii/types.go and resolve.go (`Resolve`, `better`).
--   Pii/Detector: internal/pii/detector.go. A detector is a function from a text to spans.
--   Pii/Utf8, Pii/Context, Pii/Keywords, Pii/Pipeline: internal/pii/pipeline.go (`Run`, `postProcess`,
--     `reclassifySpan` and the context windows).
--   Mask/Doc, Mask/Apply, Mask/Restore: internal/mask/mask.go (`DocState`, `Apply`, `Restore`);
--     Mask/Token: internal/mask/token.go; Mask/Full: internal/mask/full.go and servicewords.go;
--     Mask/Partial: internal/mask/partial.go; Mask/Synthetic: internal/mask/synthetic.go.
--   Synth, Synth/*: internal/synth/synth.go, with the random source as an interface (`Rng`).
--   Engine/Windows, Engine/Filter: internal/engine/chunk.go; Engine/Types, Engine/Masking,
--     Engine/Requests, Engine/Batch, Engine/Process: internal/engine/engine.go (`runMask`, `maskEx`,
--     `UnmaskEx`, `MaskBatchEx`, `Process`).
--   Crypto: internal/crypto/crypto.go.
--   Store/Types, Store/Api: internal/store/store.go, where `Store` is the contract of a store and the
--     engine's parameter; Store/Memory: internal/store/memory.go, with Store/Memory/Implements, which
--     fills the contract; Store/Spec: a store as a dictionary; Engine/Refinement/Machine: the requests as
--     an abstract machine over the dictionary, with tests of its own (`Process`, `MaskEx`, `UnmaskEx`).
--   Auth: internal/httpapi/auth.go; Config: internal/config/config.go.
--   Http/Types, Http/Server, Http/Slots: internal/httpapi/server.go (`readJSON`, `isStoreError`, `wrap`,
--     `acquireSlot`); Http/Systems: system.go; Http/Handlers: handlers.go; Http/Chat: chat.go; Http/Llm:
--     llm.go (`chatCompletion`, `readSSE`); Http/Answered: what is said of replies.
--   Detectors: internal/pii/detectors, with validators.go in Digits, Luhn, Control,
--     Dates, Emails and Written;
--     Detectors/Runes: textutil.go; Detectors/Tokens: `tokenize` of names_tokens.go;
--     Detectors/Cardholder: cardholder.go.
--   Tests: the theorems at concrete inputs.
--
-- State. A document's state (`DocState`) and the store's items are passed on explicitly. The
-- engine's requests take the store's state and a function `others`, which says what other requests
-- do to the store before each of its calls; a request that is `alone` has the identity. `Load` of
-- the memory store holds its lock twice, so it is two steps. The slots for requests in flight are a
-- step relation of their own: a request comes or ends in any order.
--
-- Bounds and fuel. Offsets, times and counts are natural numbers, and integers where the code
-- compares with what may be negative (replacements that were read back, times to live); no sum of
-- them comes near 2^63 for a text that fits into memory. `cuts_from` gets a round for each byte of
-- the text, since each cut moves on by one byte at least; `digits_before` gets one more than the
-- number, which is divided by ten in each; the rune loops get one for each byte that is left
-- (`tokenize_from` moves on by a rune at least, `spans_from` by a word), and the loops over the
-- pieces of a value one for each piece.
--
-- Parameters. `strings.ToLower`, `ToUpper` and `TrimSpace`, the matches of the card number and date
-- expressions, `strconv.Atoi`, the tables of `unicode`, SHA-256, HMAC, AES-GCM, JSON and the event
-- scanner, the random source, FNV, the name dictionaries, the decoded partial.yaml, the gateway's
-- transport, the environment and the clock are parameters. Where a theorem relies on one, the
-- record of the parameter says on what: an opened seal is what was sealed (`Aead`), a record that
-- can be written is read back (`Json`).
--
-- Not modelled: the heuristics of the other detectors, for names, addresses and documents, and
-- their regular expressions (a detector is a parameter of the pipeline), the Redis client, the
-- remaining generators of internal/synth, metrics and the request log, the demo page, YAML, the
-- entry point, the load test and the generator of test data.
pub mod Common
pub mod Pii
pub mod Mask
pub mod Engine
pub mod Http
pub mod Crypto
pub mod Synth
pub mod Store
pub mod Detectors
pub mod Auth
pub mod Config
pub mod Tests
