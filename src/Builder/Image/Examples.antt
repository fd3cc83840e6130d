-- ===== src/Builder/Image/Examples.antt =====
-- A long name of util/f301_builder: its second string node is at 0x5500001234 in memory.
use frosk.Prelude.{[], arith, replicate}
use frosk.Builder.Nodes.{string}
use frosk.Builder.Image.{write_node}
use frosk.Builder.Image.Reads.{Reads, write_node-Reads}

write_node-Reads_example :
    Reads
      (λ p. 0x5500001234)
      (write_node (λ p. 0x5500001234) 0 [] 4120 (string (replicate 18 97) 7) (λ a. 0))
      4120
      (string (replicate 18 97) 7)
write_node-Reads_example =
    write_node-Reads (λ p. 0x5500001234) 0 [] 4120 (string (replicate 18 97) 7) (λ a. 0)
      (omega arith)
