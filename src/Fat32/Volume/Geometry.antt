-- ===== src/Fat32/Volume/Geometry.antt =====
-- Where `fat32_mk` finds the table and the clusters of a volume.
use pi3_distributed_llm_infe.Fat32.Card.{Card}
