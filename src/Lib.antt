-- ===== src/Lib.antt =====
-- The plugin's own decisions about a checkpoint, and the bookkeeping that it does while serving:
-- everything here is a translation of Python code, as functions that compute.
--
-- Format (vllm_exl3_plugin/format.py): shapes and bit widths, splits over ranks, and the names of
-- tensors. `Consts` has the constants, the errors (`FormatError`, one constructor for each raise)
-- and `pad_dim`; `Widths` the trellis shapes; `Shards` and `Fused` `check_tp_split`,
-- `shard_bounds` and `fused_shard_bounds`, with the proofs of the latter in `Spans`; `Blockq` the
-- block-quantized shapes; `Keys` the module keys. `infer_interm_divisor` works on floats and is
-- left out.
-- Env (vllm_exl3_plugin/env.py): the environment variables.
-- Tp (vllm_exl3_plugin/tp.py): the slice that a rank takes of each tensor.
-- Config (vllm_exl3_plugin/quantization/config.py): `Storage` is the state of an `EXL3Config` and
-- how the names of an index or of a single file's header fill it; `Update` the lookups that give
-- those names, with `maybe_update_config`, and the renaming to vLLM's modules; `Names` is
-- `is_quantized`; `Serving` how head and embedding are served; `Selection` `get_quant_method` and
-- the rules that `get_cache_scale_mapper` adds to vLLM's own mapper. What vLLM and the Hub return
-- (names, storage map, the model's fused names) is part of the state. `Params` has the names of the
-- parameters that the embedding's methods register (quantization/embedding.py and lm_head.py), those
-- of vLLM's own method being an argument. `Claims`, `Loading`, `Dotted`, `Parts`, `Known` and
-- `Renamed` are the proofs.
-- BlockqCache (vllm_exl3_plugin/blockq_cache.py): `Pile` is `evict`, `Entries` a checkpoint's
-- identity, `read` and `write`; `Evict` and `Whole` are the proofs. What the file system answers
-- is an argument, as are the digest and the parsing of numbers; the ceiling is an error where the
-- number of bytes is infinite. An unlink that fails counts as done, as in the code: what is said of
-- the files that stay is said of those that the code leaves.
-- ExpertCache (vllm_exl3_plugin/expert_cache.py): the slots in device memory for offloaded
-- experts, and the controller at step boundaries. `State` is an `ExpertCache` with its layout;
-- `Lru`, `Demand`, `Writes`, `Landing`, `Planning` and `Steps` are its operations: `_victim`, the
-- order of misses, the table writes and copies, the two halves of `step_begin`, `_plan`,
-- `_promote`, `step_end` and `_fill`. `Sizing` is `size_slots` and `Build` `build`. The other
-- modules are proofs: of the choice of a slot (`Victim`), of the order (`Order`), of the invariant
-- (`Tables`, `Coherence`, `Release`, `Landed`, `Plans`, `Frames`, `Sound`, `Run`, `Warm`, `Serve`)
-- and of the ring of routings (`Untouched`, `Ring`, `Overwrite`).
-- Offload (vllm_exl3_plugin/cpu_offload.py): where weights live. `State` has vLLM's offloader
-- as the plugin reads it, the statistics, the selectors (`_matches`) and `_count`; `Dense`
-- `place` and `register_offload`; `Experts` `_host_quota`, `_plan_block` and `place_expert`, by
-- a layer's collector; `Staging` `build_staging`'s offsets and tables and `expert_tables`;
-- `Report` `report_once`. `Rows` and `Deliver` are the proofs on where experts are, `Window` on
-- staging, `Budget` and `Load` on what a load spends. A tensor's contents are one value, memory
-- is by address; what the host answers and the float share of a quota are `Host`.
-- Layers (vllm_exl3_plugin/quantization/linear.py and fused_moe.py): `Store` is an
-- `EXL3Parameter` and its loaders, by rank and output shard; `Linear` what a linear layer
-- refuses and checks; `Moe` one expert's slice, `Tables` the tables that the experts' layer
-- builds. `Fused`, `Ready`, `Rejoin`, `Gathered` and `Complete` are the proofs. vLLM's `_shard_id_as_int`
-- is a parameter.
-- Compose (tools/compose_checkpoint.py): `Modules` groups tensors into modules; `Rules` has
-- `select` and the rules of `main`, up to which donor gives which module; `Compare`
-- `check_module` and `check_restore_module`, with `Sides` and `Checks` their proofs; `Write` is `write`, what each shard of the output
-- holds; `Bytes` `write_shard` and `raw_header`, over files as lists of bytes. `Ledger`,
-- `Lookups` and `Whole`, `Selected`, `Given` and `Resolved`, `Ranges` and `Copied` are the
-- proofs. JSON, regular expressions and globs are parameters. A run's donors and shards are
-- numbers, `assign` and `restore` functions of a module while rules are applied and one list of
-- moves when the output is written. A file's `__metadata__` is left out.
-- Tests: the theorems at concrete inputs.
--
-- How the device enters: a cache's state says what bytes each slot holds (`Content`) and which
-- events have completed. A promotion marks its slots as being copied into; `copies_land` completes
-- the oldest copies and their event, `routing_lands` the oldest step's routing. `Event` has these
-- beside the two boundaries, so that a `run` is any interleaving of them. The table is written in
-- stream order, so a write is done where it is issued, and what a kernel reads is said between
-- events.
--
-- Numbers: all are natural numbers. The -1 of the arrays `slot_of`, `owner` and `last_use` is
-- `none`, differences are cut off at 0 only where the code takes `max(…, 0)` or where they are not
-- negative, and Python's integers have no width. The sizes that `size_slots` takes are not
-- negative. Sets and dicts are lists or functions. Every loop is over a list or a count but the
-- one that copies a tensor's bytes, which has as fuel the bytes that are left: each turn copies
-- at least one or raises.
--
-- Not modelled: the cache of `_quantized_ancestors`, which is computed anew here; logging, the
-- locks and streams of CUDA, the patches of vLLM's runner and worker, KV sizing by vLLM's own
-- functions, float arithmetic (encoding, decoding, dequantization, the interm divisor), the
-- kernels, the embedding's and the head's layer methods beyond the names of their parameters,
-- compose_checkpoint's comparison of the two models and its rewrite of the configuration and the
-- index, and the other tools and benchmarks.

pub mod Base
pub mod Env
pub mod Format
pub mod Tp
pub mod Config
pub mod BlockqCache
pub mod ExpertCache
pub mod Offload
pub mod Layers
pub mod Compose
pub mod Tests
